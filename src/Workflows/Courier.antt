-- ===== src/Workflows/Courier.antt =====
-- workflows/courier.py: `CourierShiftWorkflow`, as a machine whose points are the awaits of `run`.
-- The run's history length comes from the server.
pub mod Accounts
pub mod Lifetime
pub mod Reports
pub mod Drains
pub mod Fate
mod Tests
use Prim.Native.String.{◌++◌ as ◌⧺◌}
use warden_demo_workload.Prelude.{
  ℕ, zero, suc, ◌+◌, String, Bool, true, false, List, [], ◌∷◌, ◌++◌, ltb, ◌||◌, if◌then◌else◌,
  length,
}
use warden_demo_workload.Common.Constants.{dispatch_id, show}
use warden_demo_workload.Common.Models.{CourierState}
use warden_demo_workload.Common.SearchAttributes
use warden_demo_workload.Common.SearchAttributes.{Pair, AttributeValue, set, delivery_region}
use warden_demo_workload.Python.Value.{str, Micro}
use warden_demo_workload.Temporal.{Command, activity, signal, courier_available}

abbrev pub max_history : ℕ
max_history = 1500

-- The fields of the class; `ended` is `self._end`.
pub record Courier : Type 0 where
  pub courier_id : String
  pub region : String
  pub vehicle_type : String
  pub assignments : List String
  pub pings : ℕ
  pub count : ℕ
  pub ended : Bool

-- `__init__`
abbrev pub init : Courier
init = record {
  courier_id = "";
  region = "";
  vehicle_type = "bike";
  assignments = [];
  pings = 0;
  count = 0;
  ended = false;
}

-- In the wait; in the activity for an assignment; in the signal to dispatch; returned; or continued
-- as new, with the state and the attributes for the next run.
pub data Point : Type 0 where
  waiting accepting reporting : Point
  finished : String → Point
  continued : CourierState → List Pair → Point

pub record Entity : Type 0 where
  pub fields : Courier
  pub open fields use *
  pub point : Point

abbrev pub Ran : Type 0
Ran = Entity × List Command

pub data Signal : Type 0 where
  location_ping : Micro → Micro → Signal
  assignment : String → Signal
  end_shift : Signal

-- The signal handlers.
unfoldable pub handle : Signal → Courier → Courier
handle (location_ping lat lon) c = record c { pings = c.pings + 1 }
handle (assignment order_id) c = record c { assignments = c.assignments ++ order_id ∷ [] }
handle end_shift c = record c { ended = true }

unfoldable pub handle_all : List Signal → Courier → Courier
unfolding handle
handle_all [] c = c
handle_all (s ∷ signals) c = handle_all signals (handle s c)

-- `get_stats`
pub record Stats : Type 0 where
  pub courier_id : String
  pub region : String
  pub vehicle_type : String
  pub assignments : ℕ
  pub pings : ℕ

unfoldable pub get_stats : Courier → Stats
get_stats c = record {
  courier_id = c.courier_id;
  region = c.region;
  vehicle_type = c.vehicle_type;
  assignments = c.count;
  pings = c.pings;
}

-- The state for the next run: whether the shift has ended is not in it.
unfoldable pub carry : Courier → CourierState
carry c = record {
  courier_id = c.courier_id;
  region = c.region;
  assignments = c.count;
  pings = c.pings;
  vehicle_type = c.vehicle_type;
}

unfoldable pub stamped : Courier → List Pair
stamped c =
    set SearchAttributes.courier_id (AttributeValue.text c.courier_id)
    ∷ set delivery_region (AttributeValue.text c.region)
    ∷ set SearchAttributes.vehicle_type (AttributeValue.text c.vehicle_type)
    ∷ []

-- `f"shift-ended:{self._courier_id}:{self._count}"`
unfoldable pub shift_ended : Courier → String
shift_ended c = "shift-ended:" ⧺ c.courier_id ⧺ ":" ⧺ show c.count

abbrev pub at : Courier → Point → Entity
at c p = record { fields = c; point = p }

-- After the inner loop: continue as new, or go on from the top.
unfoldable pub finish : ℕ → Courier → Ran
unfolding carry stamped
finish history c =
    (at c (if ltb max_history history then continued (carry c) (stamped c) else waiting), [])

-- The inner loop, up to its next await; the list is the field's value.
unfoldable pub drain_from : List String → ℕ → Courier → Ran
unfolding finish
drain_from [] history c = finish history c
drain_from (order_id ∷ rest) history c = (
  at (record c { assignments = rest }) accepting,
  activity "accept_assignment" (str c.courier_id ∷ str order_id ∷ []) ∷ [],
)

unfoldable pub drain : ℕ → Courier → Ran
unfolding drain_from
drain history c = drain_from c.assignments history c

-- The body of the loop after the wait.
unfoldable pub body : ℕ → Courier → Ran
unfolding shift_ended drain
body history c = if c.ended then (at c (finished (shift_ended c)), []) else drain history c

abbrev has_any : List String → Bool
has_any [] = false
has_any (x ∷ xs) = true

-- The condition of the wait.
unfoldable pub wakes : ℕ → Courier → Bool
wakes history c = c.ended || has_any c.assignments || ltb max_history history

-- The run goes on: the await at the point is done.
unfoldable pub resume : Point → ℕ → Courier → Ran
unfolding drain
resume waiting history c = (at c waiting, [])
resume accepting history c = (
  at (record c { count = c.count + 1 }) reporting,
  signal (dispatch_id c.region)
        (courier_available (record { courier_id = c.courier_id; region = c.region }))
      ∷ [],
)
resume reporting history c = drain history c
resume (finished s) history c = (at c (finished s), [])
resume (continued s ps) history c = (at c (continued s ps), [])

abbrev pub poll_at : Point → ℕ → Courier → Ran
poll_at waiting history c = if wakes history c then body history c else (at c waiting, [])
poll_at p history c = (at c p, [])

-- The wait is tested.
unfoldable pub poll : ℕ → Entity → Ran
unfolding wakes body
poll history e = poll_at e.point history e.fields

pub record Activation : Type 0 where
  pub history : ℕ
  pub signals : List Signal
  pub done : Bool

-- An activation: its signals are handled, the await is resumed if it is done, the wait is tested.
unfoldable pub activate : Activation → Entity → Ran
unfolding handle_all resume poll
activate a e =
    let c = handle_all a.signals e.fields in
    let (e', commands) = if a.done then resume e.point a.history c else (at c e.point, []) in
    let (e'', more) = poll a.history e' in (e'', commands ++ more)

unfoldable pub run_from : List Activation → Entity → Ran
unfolding activate
run_from [] e = (e, [])
run_from (a ∷ activations) e =
    let (e', commands) = activate a e in
    let (e'', more) = run_from activations e' in (e'', commands ++ more)

-- `run` up to the loop.
unfoldable pub begin : CourierState → Courier → Entity
begin state c =
    at
      (record c {
        courier_id = state.courier_id;
        region = state.region;
        vehicle_type = state.vehicle_type;
        count = state.assignments;
        pings = state.pings;
      })
      waiting
