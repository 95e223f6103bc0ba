-- ===== src/Workflows/Order.antt =====
-- workflows/order.py: `OrderWorkflow.run`, await by await. A run is a state-passing function: each
-- await takes the next turn of its environment, in which signals may arrive. None arrives before
-- `run` begins: a region signals an order only after the order has announced itself to it.
pub mod Steps
pub mod Timeline
pub mod Passage
pub mod Asks
pub mod Awaits
pub mod Commands
pub mod Course
pub mod Delivers
pub mod Faults
pub mod Stages
mod Tests
use Prim.Native.String.{◌++◌ as ◌⧺◌}
use warden_demo_workload.Prelude.{
  ℕ, zero, suc, ◌+◌, ◌*◌, String, true, Option, none, some, List, [], ◌∷◌, ◌==◌, if◌then◌else◌,
}
use warden_demo_workload.Common.Constants.{settlement_tq, dispatch_id, settlement_id}
use warden_demo_workload.Common.Models.{OrderInput}
use warden_demo_workload.Common.Retry.{default_retry, storm_retry}
use warden_demo_workload.Common.SearchAttributes
use warden_demo_workload.Common.SearchAttributes.{
  Pair, AttributeValue, set, order_stage, promised_delivery_at, delivery_region, restaurant_id,
  stage_preparing, stage_awaiting_courier, stage_in_transit, stage_settling,
}
use warden_demo_workload.Python.Value.{str, bool, Conversions}
use warden_demo_workload.Activities.{
  validate_order, send_to_restaurant, poll_restaurant_accept, mark_picked_up, mark_delivered,
}
use warden_demo_workload.Activities.Storm.{attempt_payment}
use warden_demo_workload.Temporal.{
  Command, activity, wait_until, signal, upsert, child, order_ready, settlement, ok, Server,
}
unfoldable pub use warden_demo_workload.Workflows.Order.Steps.*

-- `_stage`
unfoldable pub stage : String → List Pair → Step Unit
stage name extra s = (
  ok tt,
  if s.track_stages
      then record_command (upsert (set order_stage (AttributeValue.text name) ∷ extra)) s
      else s,
)

-- `s[:n]`, by characters.
unfoldable pub take_chars : ℕ → String → String
take_chars zero s = ""
take_chars (suc n) String.[] = ""
take_chars (suc n) (String.◌∷◌ c s) = String.◌∷◌ c (take_chars n s)

unfoldable pub synthetic_courier : String → String
unfolding take_chars
synthetic_courier order_id = "synthetic-" ⧺ take_chars 8 order_id

-- The fallback of the `except asyncio.TimeoutError`.
abbrev pub fall_back : String → Option String → Option String
fall_back order_id none = some (synthetic_courier order_id)
fall_back order_id (some c) = some c

-- Step 7: a wait of 30 seconds for a courier, unless there is one, and the fallback.
unfoldable pub await_courier : String → Step Unit
unfolding after synthetic_courier
await_courier order_id s =
    let waited : Saga = elim s.courier_id [ some c ↦ s | none ↦ after (wait_until 30) s ] in
    (ok tt, record waited { courier_id = fall_back order_id waited.courier_id })

-- `self._courier_id or "unknown"`
unfoldable pub or_unknown : Option String → String
or_unknown none = "unknown"
or_unknown (some c) = if c == "" then "unknown" else c

-- Both timers and time in seconds.
abbrev pub delivery_promise : ℕ
delivery_promise = 35 * 60

abbrev pub promised : ℕ → Pair
promised now = set promised_delivery_at (AttributeValue.datetime (now + delivery_promise))

abbrev pub carried_by : Option String → Pair
carried_by courier = set SearchAttributes.courier_id (AttributeValue.text (or_unknown courier))

-- The arguments of `start_child_workflow`.
unfoldable pub settlement_child : OrderInput → Option String → Command
unfolding or_unknown
settlement_child inp courier = child (record {
  workflow = "SettlementWorkflow";
  input = settlement (record {
    order_id = inp.order_id;
    region = inp.region;
    restaurant_id = inp.restaurant_id;
    courier_id = or_unknown courier;
  });
  id = settlement_id inp.order_id;
  task_queue = settlement_tq;
  abandoned = true;
  attributes =
      set delivery_region (AttributeValue.text inp.region)
      ∷ set restaurant_id (AttributeValue.text inp.restaurant_id)
      ∷ carried_by courier
      ∷ set order_stage (AttributeValue.text stage_settling)
      ∷ [];
})

abbrev pub gets : {A : Type 0} → (Saga → A) → Step A
gets f s = (ok (f s), s)

-- The first line of `run`.
unfoldable pub begin : OrderInput → Step Unit
begin inp s = (ok tt, record s { track_stages = inp.track_stages })

abbrev pub ready_signal : OrderInput → String → Command
ready_signal inp workflow_id = signal (dispatch_id inp.region) (
    order_ready
      (record { order_id = inp.order_id; order_wf_id = workflow_id; region = inp.region }))

module _ (server : Server) (cv : Conversions) (workflow_id : String) (inp : OrderInput) where
  -- The start of `run` up to the restaurant's acceptance: steps 1 to 4.
  unfoldable pub accept : Step Unit
  accept = do
    if inp.force_timeout then sleep 30 else pure tt
    execute_activity server
        (activity "validate_order" (str inp.order_id ∷ bool inp.slow_validate ∷ [])) default_retry 8
        (λ sights k. validate_order inp.order_id inp.slow_validate)
    execute_activity server (activity "authorize_payment" (str inp.order_id ∷ [])) storm_retry 10
        (λ sights k. attempt_payment cv sights inp.order_id k)
    execute_activity server
        (activity "send_to_restaurant" (str inp.order_id ∷ bool inp.fail_at_restaurant ∷ []))
        default_retry 10 (λ sights k. send_to_restaurant inp.order_id inp.fail_at_restaurant)
    sleep 10
    execute_activity server (activity "poll_restaurant_accept" (str inp.order_id ∷ []))
        default_retry 10 (λ sights k. poll_restaurant_accept inp.order_id)
    pure tt

  -- From the acceptance to the pickup: steps 5 to 8 and their stages.
  unfoldable pub collect : Step Unit
  unfolding stage await_courier or_unknown
  collect = do
    now ← gets (λ s. s.now)
    stage stage_preparing (promised now ∷ [])
    sleep 70
    signal_caught (ready_signal inp workflow_id)
    stage stage_awaiting_courier []
    await_courier inp.order_id
    execute_activity server (activity "mark_picked_up" (str inp.order_id ∷ [])) default_retry 10
        (λ sights k. mark_picked_up inp.order_id)
    courier ← gets (λ s. s.courier_id)
    stage stage_in_transit (carried_by courier ∷ [])

  -- Transit, delivery and the settlement child: steps 9 and 10.
  unfoldable pub deliver : Step String
  unfolding settlement_child
  deliver = do
    sleep 60
    execute_activity server (activity "mark_delivered" (str inp.order_id ∷ [])) default_retry 10
        (λ sights k. mark_delivered inp.order_id)
    courier ← gets (λ s. s.courier_id)
    start_child (settlement_child inp courier)
    pure "delivered"

  unfoldable pub run : Step String
  unfolding begin
  run = begin inp >> accept >> collect >> deliver
