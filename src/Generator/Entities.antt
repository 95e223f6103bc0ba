-- ===== src/Generator/Entities.antt =====
-- generator.py: `ensure_control`, `ensure_entities`, `entity_keepalive_loop` and the start of `run`.
-- The server is an interface: which workflow ids have an open execution, and `start_workflow`.
pub mod Keepalive
pub mod Reference
mod Tests
use Prim.Native.String.{◌++◌ as ◌⧺◌}
use warden_demo_workload.Prelude.{
  ◌≡◌, ◌≢◌, String, Bool, true, false, List, [], ◌∷◌, ◌++◌, map, take,
}
use warden_demo_workload.Prelude.Int.{pos}
use warden_demo_workload.Common.Constants.{
  control_tq, dispatch_tq, menu_tq, regions, control_workflow_id, dispatch_id,
}
use warden_demo_workload.Common.Models.{DispatchState, MenuSyncState, fresh_region}
use warden_demo_workload.Common.SearchAttributes
use warden_demo_workload.Common.SearchAttributes.{
  Pair, AttributeValue, set, delivery_region, fleet_status, pending_order_count,
}
use warden_demo_workload.Generator.Fleet.{StartOutcome, started, already_started, failed}

-- The first four of `RESTAURANTS`.
abbrev pub menu_restaurants : List String
menu_restaurants = "rest-1" ∷ "rest-2" ∷ "rest-3" ∷ "rest-4" ∷ []

pub data EntityInput : Type 0 where
  no_input : EntityInput
  region : DispatchState → EntityInput
  menu : MenuSyncState → EntityInput

-- The arguments of `start_workflow`.
pub record Start : Type 0 where
  pub workflow : String
  pub input : EntityInput
  pub id : String
  pub task_queue : String
  pub attributes : List Pair

-- What the generator relies on of the server: after a start that does not fail an execution with the
-- id is open, and a start closes none.
pub record Cluster : Type 1 where
  pub State : Type 0
  pub is_open : State → String → Bool
  pub start : Start → State → StartOutcome × State
  pub start-opens :
      (e : Start) (s : State) → (start e s).0 ≢ failed → is_open (start e s).1 e.id ≡ true
  pub start-keeps :
      (e : Start) (s : State) (id : String) → is_open s id ≡ true → is_open (start e s).1 id ≡ true

-- The start in `ensure_control`.
unfoldable pub control_start : Start
control_start = record {
  workflow = "DemoControlWorkflow";
  input = no_input;
  id = control_workflow_id;
  task_queue = control_tq;
  attributes = [];
}

-- The start of a region's entity.
unfoldable pub dispatch_start : String → Start
dispatch_start r = record {
  workflow = "DispatchWorkflow";
  input = region (fresh_region r);
  id = dispatch_id r;
  task_queue = dispatch_tq;
  attributes =
      set delivery_region (AttributeValue.text r)
      ∷ set fleet_status (AttributeValue.text "healthy")
      ∷ set pending_order_count (AttributeValue.int (pos 0))
      ∷ [];
}

unfoldable pub menu_id : String → String
menu_id restaurant = "menu-" ⧺ restaurant

-- The start of a restaurant's menu.
unfoldable pub menu_start : String → Start
unfolding menu_id
menu_start restaurant = record {
  workflow = "MenuSyncWorkflow";
  input = menu (record { restaurant_id = restaurant; runs = 0 });
  id = menu_id restaurant;
  task_queue = menu_tq;
  attributes = set SearchAttributes.restaurant_id (AttributeValue.text restaurant) ∷ [];
}

-- The starts of `ensure_entities`, in order.
unfoldable pub entity_starts : List Start
unfolding dispatch_start menu_start
entity_starts = map dispatch_start regions ++ map menu_start menu_restaurants

module _ (cluster : Cluster) where
  -- A call that ends, or raises: only `WorkflowAlreadyStartedError` is caught.
  abbrev pub Ran : Type 0
  Ran = Bool × cluster.State

  abbrev pub unless_failed : StartOutcome → cluster.State → Ran → Ran
  unless_failed started s rest = rest
  unless_failed already_started s rest = rest
  unless_failed failed s rest = (false, s)

  -- Starts, one after the other, up to the first that raises.
  unfoldable pub start_all : List Start → cluster.State → Ran
  start_all [] s = (true, s)
  start_all (e ∷ starts) s =
      let (o, s') = cluster.start e s in let rest = start_all starts s' in unless_failed o s' rest

  unfoldable pub ensure_control : cluster.State → Ran
  unfolding start_all
  ensure_control s = start_all (control_start ∷ []) s

  unfoldable pub ensure_entities : cluster.State → Ran
  unfolding start_all
  ensure_entities s = start_all entity_starts s

  abbrev pub if_ended : Bool → cluster.State → Ran → Ran
  if_ended true s rest = rest
  if_ended false s rest = (false, s)

  -- Rounds of the keepalive loop: in each sleep the server changes in some way, and an exception
  -- ends the loop.
  unfoldable pub entity_keepalive_loop : List (cluster.State → cluster.State) → cluster.State → Ran
  unfolding ensure_entities
  entity_keepalive_loop [] s = (true, s)
  entity_keepalive_loop (change ∷ changes) s =
      let (ended, s') = ensure_entities (change s) in
      let rest = entity_keepalive_loop changes s' in if_ended ended s' rest

  -- `run` up to the loops.
  unfoldable pub run_startup : cluster.State → Ran
  unfolding ensure_control ensure_entities
  run_startup s =
      let (ended, s') = ensure_control s in let rest = ensure_entities s' in if_ended ended s' rest
