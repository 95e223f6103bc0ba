-- ===== src/Workflows/Dispatch.antt =====
-- workflows/dispatch.py: `DispatchWorkflow`. The run is a machine whose points are its awaits; an
-- activation handles the signals that it brings, resumes the await if that is done, and then tests
-- the wait. The run's history length comes from the server.
pub mod State
pub mod Points
pub mod Quiescence
mod Tests
pub mod Queue
pub mod Health
pub mod Carry
pub mod Lifetime
pub mod Early
pub mod Progress
pub mod Drains
pub mod Supply
pub mod Flags
use Prim.Native.String.{◌++◌ as ◌⧺◌}
use warden_demo_workload.Prelude.{
  ℕ, zero, suc, ◌+◌, ◌-◌, String, Bool, not, ◌&&◌, ◌||◌, List, [], ◌∷◌, ◌++◌, ltb, leb, ◌==◌,
  if◌then◌else◌, length, drop,
}
use warden_demo_workload.Prelude.Int.{ℤ, pos, negsuc}
use warden_demo_workload.Common.Constants.{show}
use warden_demo_workload.Common.Models.{Degradation, DispatchState, PendingOrder}
use warden_demo_workload.Common.SearchAttributes.{
  Pair, AttributeValue, set, delivery_region, fleet_status, pending_order_count,
}
use warden_demo_workload.Python.Value.{str, int}
use warden_demo_workload.Temporal.{
  Command, activity, local_activity, timer, signal, upsert, courier_assigned,
}
unfoldable pub use warden_demo_workload.Workflows.Dispatch.State.*

-- `_status`
unfoldable pub status : Degradation → String
status g = if g.suspend_can || g.inflate_history then "degraded" else "healthy"

-- `_publish_status`
unfoldable pub publish_status : Dispatch → Dispatch × List Command
unfolding status
publish_status d = if status d.degr == d.published_status then (d, []) else (
  record d { published_status = status d.degr },
  upsert (
        set fleet_status (AttributeValue.text (status d.degr))
        ∷ set pending_order_count (AttributeValue.int (pos (length d.pending)))
        ∷ [])
      ∷ [],
)

-- `max(1, int(rate or 40))`
unfoldable pub marker_rate : ℤ → ℕ
marker_rate (pos zero) = 40
marker_rate (pos (suc n)) = suc n
marker_rate (negsuc n) = 1

-- One turn of the loop over the markers, with `left` to follow.
unfoldable pub mark : ℕ → Dispatch → Ran
mark left d = (
  record { fields = record d { seq = d.seq + 1 }; point = marking left },
  local_activity "noop_marker" (int (pos (d.seq + 1)) ∷ []) ∷ [],
)

-- The top of `while True`.
unfoldable pub top : Dispatch → Ran
unfolding mark marker_rate
top d =
    if d.degr.inflate_history
    then mark (marker_rate d.degr.inflate_rate - 1) d
    else (record { fields = d; point = waiting }, [])

-- `_carry`
unfoldable pub carry : Dispatch → DispatchState
carry d = record {
  region = d.region;
  pending_orders = d.pending;
  available_couriers = drop (length d.couriers - 50) d.couriers;
  processed = 0;
  degradation = d.degr;
}

-- The attributes for the next run.
unfoldable pub stamped : Dispatch → List Pair
unfolding status
stamped d =
    set delivery_region (AttributeValue.text d.region)
    ∷ set fleet_status (AttributeValue.text (status d.degr))
    ∷ set pending_order_count (AttributeValue.int (pos (length d.pending)))
    ∷ []

-- The test at the end of the loop's body.
unfoldable pub must_continue : ℕ → Dispatch → Bool
must_continue history d =
    not d.degr.suspend_can && (leb max_processed d.processed || ltb max_history history)

-- The end of the body: continue as new, or go on from the top.
unfoldable pub finish : ℕ → Dispatch → Ran
unfolding carry stamped must_continue top
finish history d =
    if must_continue history d
    then (record { fields = d; point = continued (carry d) (stamped d) }, [])
    else top d

-- `f"synthetic-{self._region}-{self._processed}"`
unfoldable pub synthetic_courier : Dispatch → String
synthetic_courier d = "synthetic-" ⧺ d.region ⧺ "-" ⧺ show d.processed

abbrev pub assign : PendingOrder → String → Dispatch → Ran
assign order courier d = (
  record { fields = d; point = assigning order courier },
  activity "assign_courier" (str order.order_id ∷ str courier ∷ []) ∷ [],
)

-- The oldest courier, or a synthetic one.
abbrev pub take_courier : PendingOrder → List String → Dispatch → Ran
take_courier order [] d = assign order (synthetic_courier d) d
take_courier order (c ∷ couriers) d = assign order c (record d { couriers = couriers })

-- `_drain`, up to its next await, and what follows it; `pending` is the field's value.
unfoldable pub drain_from : List PendingOrder → ℕ → Dispatch → Ran
unfolding synthetic_courier finish
drain_from [] history d = finish history d
drain_from (order ∷ pending) history d =
    take_courier order d.couriers (record d { pending = pending })

unfoldable pub drain : ℕ → Dispatch → Ran
unfolding drain_from
drain history d = drain_from d.pending history d

-- The body of the loop after the wait or the sleep.
unfoldable pub body : ℕ → Dispatch → Ran
unfolding publish_status drain
body history d =
    let (d', published) = publish_status d in
    let (e, commands) = drain history d' in (e, published ++ commands)

-- The condition of the wait.
unfoldable pub wakes : ℕ → Dispatch → Bool
unfolding status
wakes history d =
    ltb 0 (length d.pending)
    || d.degr.inflate_history
    || not (status d.degr == d.published_status)
    || (not d.degr.suspend_can && ltb max_history history)

-- The run goes on: the await at the point is done.
unfoldable pub resume : Point → ℕ → Dispatch → Ran
unfolding mark body drain
resume waiting history d = (record { fields = d; point = waiting }, [])
resume (marking (suc left)) history d = mark left d
resume (marking zero) history d = (record { fields = d; point = pausing }, timer 1 ∷ [])
resume pausing history d = body history d
resume (assigning order courier) history d = (
  record { fields = d; point = answering order courier },
  signal order.order_wf_id (courier_assigned courier) ∷ [],
)
resume (answering order courier) history d =
    drain history (record d { processed = d.processed + 1 })
resume (continued state pairs) history d =
    (record { fields = d; point = continued state pairs }, [])

abbrev pub poll_at : Point → ℕ → Dispatch → Ran
poll_at waiting history d =
    if wakes history d then body history d else (record { fields = d; point = waiting }, [])
poll_at p history d = (record { fields = d; point = p }, [])

-- The wait is tested.
unfoldable pub poll : ℕ → Entity → Ran
unfolding wakes body
poll history e = poll_at e.point history e.fields

-- An activation: its signals, whether the await is done, and the wait's test.
pub record Activation : Type 0 where
  pub history : ℕ
  pub signals : List Signal
  pub done : Bool

unfoldable pub activate : Activation → Entity → Ran
unfolding handle_all resume poll
activate a e =
    let d = handle_all a.signals e.fields in
    let (e', commands) =
      if a.done then resume e.point a.history d else (record { fields = d; point = e.point }, []) in
    let (e'', more) = poll a.history e' in (e'', commands ++ more)

unfoldable pub run_from : List Activation → Entity → Ran
unfolding activate
run_from [] e = (e, [])
run_from (a ∷ activations) e =
    let (e', commands) = activate a e in
    let (e'', more) = run_from activations e' in (e'', commands ++ more)

-- `run` up to the loop: the state is taken over, and its health is what the starter stamped.
unfoldable pub begin : DispatchState → Dispatch → Ran
unfolding status top
begin state d = top (record {
  region = state.region;
  pending = state.pending_orders;
  couriers = state.available_couriers;
  processed = state.processed;
  degr = state.degradation;
  seq = d.seq;
  published_status = status state.degradation;
})
