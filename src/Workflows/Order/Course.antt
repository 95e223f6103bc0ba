-- ===== src/Workflows/Order/Course.antt =====
-- The states and the commands of a healthy run of `OrderWorkflow` (workflows/order.py).
use warden_demo_workload.Common.SearchAttributes.{promised_delivery_at}
use warden_demo_workload.Prelude.{
  ◌+◌, ◌≢◌, ◌≡◌, String, false, [], ◌∷◌, if◌then◌else◌, Bool-cases, inl, inr, List, none,
}
use warden_demo_workload.Python.Value.{Conversions, str, bool}
use warden_demo_workload.Common.Models.{OrderInput}
use warden_demo_workload.Temporal.{Command, activity, timer, ok, Server}
use warden_demo_workload.Workflows.Order.{
  stage, ready_signal, promised, carried_by, await_courier, settlement_child, Saga, after, accept,
  sleep, pure, collect, deliver,
}
use warden_demo_workload.Common.SearchAttributes.{
  Pair, AttributeValue, set, order_stage, stage_preparing, stage_awaiting_courier, stage_in_transit,
}
use warden_demo_workload.Prelude.{ℕ, Option, append-nil, append_assoc, ◌++◌}
use warden_demo_workload.Temporal.{upsert}
use warden_demo_workload.Workflows.Order.Awaits.{
  pick_up_ok, deliver_ok, wait_log, stage-log, stage-track_stages, stage-Accepts, stage-courier_id,
  await_courier-Accepts, await_courier-ne-none, after-ne-none, await_courier-log,
  await_courier-track_stages, after-log, after-track_stages, Accepts, after-Accepts, Pays,
  after-Pays, payment_ok, validate_ok, send_ok, poll_ok,
}

-- The states that a healthy order goes through.
abbrev pub paused : OrderInput → Saga → Saga
paused inp s = if inp.force_timeout then after (timer 30) s else s

abbrev pub validate_command : OrderInput → Command
validate_command inp = activity "validate_order" (str inp.order_id ∷ bool inp.slow_validate ∷ [])

abbrev pub send_command : OrderInput → Command
send_command inp =
    activity "send_to_restaurant" (str inp.order_id ∷ bool inp.fail_at_restaurant ∷ [])

-- A command of an activity that takes the order's id alone.
abbrev pub simple : OrderInput → String → Command
simple inp name = activity name (str inp.order_id ∷ [])

abbrev pub authorized : OrderInput → Saga → Saga
authorized inp s =
    after (simple inp "authorize_payment") (after (validate_command inp) (paused inp s))

abbrev pub taken : OrderInput → Saga → Saga
taken inp s =
    after (simple inp "poll_restaurant_accept")
      (after (timer 10) (after (send_command inp) (authorized inp s)))

pub pause_lem :
    (inp : OrderInput) (s : Saga)
    → (if inp.force_timeout then sleep 30 else pure tt) s ≡ (ok tt, paused inp s)
pause_lem inp s = elim (Bool-cases inp.force_timeout) [ inl e ↦ rw e | inr e ↦ rw e ]

pub paused-Pays :
    (cv : Conversions) (inp : OrderInput) (s : Saga) → Pays cv s → Pays cv (paused inp s)
paused-Pays cv inp s h = elim (Bool-cases inp.force_timeout) [
  | inl e ↦ rw e (after-Pays cv (timer 30) s h)
  | inr e ↦ rw e h
]

module _ (server : Server) (cv : Conversions) (workflow_id : String) (inp : OrderInput) where
  pub accept_lem :
      (s : Saga)
      → inp.slow_validate ≡ false
      → inp.fail_at_restaurant ≡ false
      → Pays cv s
      → accept server cv workflow_id inp s ≡ (ok tt, taken inp s)
  unfolding accept
  accept_lem s prompt served pays =
      let s0 : Saga = paused inp s in
      let s1 : Saga = after (validate_command inp) s0 in
      rw (
        pause_lem inp s,
        validate_ok server inp.order_id inp.slow_validate prompt,
        payment_ok server cv inp.order_id s1 (after-Pays cv _ s0 (paused-Pays cv inp s pays)),
        send_ok server inp.order_id inp.fail_at_restaurant served,
        poll_ok server inp.order_id,
      )

-- The states of the second part, after each of its awaits and stages.
abbrev pub ready : OrderInput → String → Saga → Saga
ready inp workflow_id s =
    (stage stage_awaiting_courier [] (
      after (ready_signal inp workflow_id)
        (after (timer 70) (stage stage_preparing (promised s.now ∷ []) s).1))).1

abbrev pub picked_up : OrderInput → String → Saga → Saga
picked_up inp workflow_id s =
    after (simple inp "mark_picked_up") (await_courier inp.order_id (ready inp workflow_id s)).1

abbrev pub in_transit : OrderInput → String → Saga → Saga
in_transit inp workflow_id s =
    let s' = picked_up inp workflow_id s in
    (stage stage_in_transit (carried_by s'.courier_id ∷ []) s').1

abbrev pub arrived : OrderInput → Saga → Saga
arrived inp s = after (simple inp "mark_delivered") (after (timer 60) s)

module _ (server : Server) (cv : Conversions) (workflow_id : String) (inp : OrderInput) where
  pub collect_lem :
      (s : Saga) → collect server cv workflow_id inp s ≡ (ok tt, in_transit inp workflow_id s)
  unfolding collect
  collect_lem s = rw (pick_up_ok server inp.order_id)

  pub deliver_lem :
      (s : Saga)
      → Accepts s
      → let s' = arrived inp s in
        deliver server cv workflow_id inp s
        ≡ (ok "delivered", after (settlement_child inp s'.courier_id) s')
  unfolding deliver
  deliver_lem s free = rw (
    deliver_ok server inp.order_id,
    after-Accepts (simple inp "mark_delivered") (after (timer 60) s)
        (after-Accepts (timer 60) s free) 0,
  )

-- The upsert of a stage, if the order tracks its stages.
abbrev pub stage_log : OrderInput → String → List Pair → List Command
stage_log inp name extra =
    if inp.track_stages
    then upsert (set order_stage (AttributeValue.text name) ∷ extra) ∷ []
    else []

abbrev pub accept_log : OrderInput → List Command
accept_log inp =
    (if inp.force_timeout then timer 30 ∷ [] else [])
    ++ (validate_command inp
        ∷ simple inp "authorize_payment"
        ∷ send_command inp
        ∷ timer 10
        ∷ simple inp "poll_restaurant_accept"
        ∷ [])

-- `early` is the courier that was there before step 7, and `carrier` the one at the pickup; the promise
-- is for 35 minutes after `now`.
abbrev pub collect_log : OrderInput → String → ℕ → Option String → Option String → List Command
collect_log inp workflow_id now early carrier =
    stage_log inp stage_preparing
      (set promised_delivery_at (AttributeValue.datetime (now + 2100)) ∷ [])
    ++ (timer 70 ∷ ready_signal inp workflow_id ∷ [])
    ++ stage_log inp stage_awaiting_courier []
    ++ wait_log early
    ++ (simple inp "mark_picked_up" ∷ [])
    ++ stage_log inp stage_in_transit (carried_by carrier ∷ [])

abbrev pub deliver_log : OrderInput → Option String → List Command
deliver_log inp courier = timer 60 ∷ simple inp "mark_delivered" ∷ settlement_child inp courier ∷ []

pub paused-log :
    (inp : OrderInput) (s : Saga)
    → (paused inp s).log ≡ s.log ++ (if inp.force_timeout then timer 30 ∷ [] else [])
paused-log inp s = elim (Bool-cases inp.force_timeout) [
  | inl e ↦ rw e (after-log (timer 30) s)
  | inr e ↦ rw (e, append-nil)
]

pub in_transit-log :
    (inp : OrderInput) (workflow_id : String) (s : Saga)
    → s.track_stages ≡ inp.track_stages
    → (in_transit inp workflow_id s).log
      ≡ s.log
        ++ collect_log inp workflow_id s.now
            (ready inp workflow_id s).courier_id
            (picked_up inp workflow_id s).courier_id
in_transit-log inp workflow_id s e = simp (
  after-log, stage-log, await_courier-log, after-track_stages, await_courier-track_stages,
  stage-track_stages, e, append_assoc,
)

pub in_transit-Accepts :
    (inp : OrderInput) (workflow_id : String) (s : Saga)
    → Accepts s
    → Accepts (in_transit inp workflow_id s)
in_transit-Accepts inp workflow_id s h =
    stage-Accepts stage_in_transit _ (picked_up inp workflow_id s) (
      after-Accepts (simple inp "mark_picked_up")
        (await_courier inp.order_id (ready inp workflow_id s)).1
        (await_courier-Accepts inp.order_id (ready inp workflow_id s) (
          stage-Accepts stage_awaiting_courier [] _ (
            after-Accepts (ready_signal inp workflow_id) _ (
              after-Accepts (timer 70) _
                (stage-Accepts stage_preparing (promised s.now ∷ []) s h))))))

pub paused-Accepts : (inp : OrderInput) (s : Saga) → Accepts s → Accepts (paused inp s)
paused-Accepts inp s h = elim (Bool-cases inp.force_timeout) [
  | inl e ↦ rw e (after-Accepts (timer 30) s h)
  | inr e ↦ rw e h
]

pub taken-Accepts : (inp : OrderInput) (s : Saga) → Accepts s → Accepts (taken inp s)
taken-Accepts inp s h = after-Accepts (simple inp "poll_restaurant_accept") _ (
    after-Accepts (timer 10) _ (
      after-Accepts (send_command inp) _ (
        after-Accepts (simple inp "authorize_payment") _
          (after-Accepts (validate_command inp) _ (paused-Accepts inp s h)))))

pub paused-track_stages :
    (inp : OrderInput) (s : Saga) → (paused inp s).track_stages ≡ s.track_stages
paused-track_stages inp s = elim (Bool-cases inp.force_timeout) [
  | inl e ↦ rw e (after-track_stages (timer 30) s)
  | inr e ↦ rw e
]

pub taken-track_stages : (inp : OrderInput) (s : Saga) → (taken inp s).track_stages ≡ s.track_stages
taken-track_stages inp s = simp (after-track_stages, paused-track_stages)

pub picked_up-ne-none :
    (inp : OrderInput) (workflow_id : String) (s : Saga)
    → (picked_up inp workflow_id s).courier_id ≢ none
picked_up-ne-none inp workflow_id s =
    after-ne-none (simple inp "mark_picked_up") _ (await_courier-ne-none inp.order_id _)

pub arrived-ne-none :
    (inp : OrderInput) (workflow_id : String) (s : Saga)
    → (arrived inp (in_transit inp workflow_id s)).courier_id ≢ none
arrived-ne-none inp workflow_id s = after-ne-none (simple inp "mark_delivered") _ (
    after-ne-none (timer 60) (in_transit inp workflow_id s) (
      rw (stage-courier_id stage_in_transit _ (picked_up inp workflow_id s))
        (picked_up-ne-none inp workflow_id s)))
