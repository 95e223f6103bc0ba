-- ===== src/Workflows/Dispatch/State.antt =====
-- workflows/dispatch.py: the fields of `DispatchWorkflow`, its handlers and its query, and the points of
-- its run.
use warden_demo_workload.Prelude.{ℕ, String, Bool, List, [], ◌∷◌, ◌++◌, length}
use warden_demo_workload.Common.Models.{
  Degradation, no_degradation, DispatchState, PendingOrder, OrderReady, CourierAvailable,
}
use warden_demo_workload.Common.SearchAttributes.{Pair}
use warden_demo_workload.Temporal.{Command}

abbrev pub max_processed : ℕ
max_processed = 200

abbrev pub max_history : ℕ
max_history = 1500

-- The fields of the class.
pub record Dispatch : Type 0 where
  pub region : String
  pub pending : List PendingOrder
  pub couriers : List String
  pub processed : ℕ
  pub degr : Degradation
  pub seq : ℕ
  pub published_status : String

-- `__init__`
abbrev pub init : Dispatch
init = record {
  region = "";
  pending = [];
  couriers = [];
  processed = 0;
  degr = no_degradation;
  seq = 0;
  published_status = "healthy";
}

-- Where the run stands: in the wait; at a marker, with some left; in the sleep after the markers;
-- in the activity for an order, with its courier; in the signal back to the order; or continued as
-- new, with the state and the attributes for the next run.
pub data Point : Type 0 where
  waiting : Point
  marking : ℕ → Point
  pausing : Point
  assigning : PendingOrder → String → Point
  answering : PendingOrder → String → Point
  continued : DispatchState → List Pair → Point

pub record Entity : Type 0 where
  pub fields : Dispatch
  pub open fields use *
  pub point : Point

-- What a piece of the run gives: the entity and the commands.
abbrev pub Ran : Type 0
Ran = Entity × List Command

pub data Signal : Type 0 where
  order_ready : OrderReady → Signal
  courier_available : CourierAvailable → Signal
  set_degradation : Degradation → Signal

-- The signal handlers.
unfoldable pub handle : Signal → Dispatch → Dispatch
handle (order_ready r) d = record d {
  pending = d.pending ++ record { order_id = r.order_id; order_wf_id = r.order_wf_id } ∷ [];
}
handle (courier_available a) d = record d { couriers = d.couriers ++ a.courier_id ∷ [] }
handle (set_degradation g) d = record d { degr = g }

unfoldable pub handle_all : List Signal → Dispatch → Dispatch
unfolding handle
handle_all [] d = d
handle_all (s ∷ signals) d = handle_all signals (handle s d)

-- `get_stats`
pub record Stats : Type 0 where
  pub region : String
  pub processed : ℕ
  pub pending : ℕ
  pub couriers : ℕ
  pub history_length : ℕ
  pub suspend_can : Bool
  pub inflate_history : Bool

unfoldable pub get_stats : ℕ → Dispatch → Stats
get_stats history d = record {
  region = d.region;
  processed = d.processed;
  pending = length d.pending;
  couriers = length d.couriers;
  history_length = history;
  suspend_can = d.degr.suspend_can;
  inflate_history = d.degr.inflate_history;
}
