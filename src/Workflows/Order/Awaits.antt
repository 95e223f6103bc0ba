-- ===== src/Workflows/Order/Awaits.antt =====
-- What one await of `OrderWorkflow.run` does (workflows/order.py), and how each of its activities
-- ends (activities/order.py).
use warden_demo_workload.Prelude.{
  ℕ, suc, ◌<◌, ◌≡◌, refl, inr, arith, String, true, false, List, [], ◌∷◌, ◌++◌, Bool, inl,
}
use warden_demo_workload.Common.Retry.{default_retry, storm_retry}
use warden_demo_workload.Python.Value.{Conversions}
use warden_demo_workload.Activities.{
  receipt, validate_order, send_to_restaurant, poll_restaurant_accept, mark_picked_up,
  mark_delivered,
}
use warden_demo_workload.Activities.Storm.{attempt_payment, PassesStorm, payment_recovers}
use warden_demo_workload.Temporal.{Command, ok, failed, Server}
use warden_demo_workload.Workflows.Order.{fall_back, Saga, receive, after, stage, await_courier}
use warden_demo_workload.Common.SearchAttributes.{Pair, AttributeValue, set, order_stage}
use warden_demo_workload.Prelude.{
  append-nil, Bool-cases, Option-cases, Option, none, some, ◌≢◌, if◌then◌else◌,
}
use warden_demo_workload.Temporal.{upsert, wait_until}

receive_fields :
    (signals : List String) (s : Saga)
    → ((receive signals s).log ≡ s.log)
      × ((receive signals s).track_stages ≡ s.track_stages)
      × ((receive signals s).turns ≡ s.turns)
unfolding receive
receive_fields [] s = (refl, refl, refl)
receive_fields (c ∷ signals) s = receive_fields signals _

module _ (c : Command) (s : Saga) where
  pub after-log : (after c s).log ≡ s.log ++ c ∷ []
  unfolding after
  after-log = (receive_fields (s.turns 0).signals _).0

  pub after-track_stages : (after c s).track_stages ≡ s.track_stages
  unfolding after
  after-track_stages = (receive_fields (s.turns 0).signals _).1

  pub after-turns : (after c s).turns ≡ (λ n. s.turns (suc n))
  unfolding after
  after-turns = (receive_fields (s.turns 0).signals _).2

module _ (server : Server) (order_id : String) where
  pub validate_ok :
      (b : Bool)
      → b ≡ false
      → server.execute default_retry 8 (λ k. validate_order order_id b) ≡ ok "valid"
  unfolding validate_order
  validate_ok b e = rw e (
      server.completes default_retry 8 _ 0 "valid" (omega arith) (λ j h. elim h [ ]) refl
        (omega arith))

  -- A slow validation sleeps past the start-to-close timeout at each of its five attempts.
  pub validate_slow :
      (b : Bool)
      → b ≡ true
      → server.execute default_retry 8 (λ k. validate_order order_id b) ≡ failed
  unfolding validate_order
  validate_slow b e = rw e (server.exhausts default_retry 8 _ (λ j h. inr (omega arith)))

  pub send_ok :
      (b : Bool)
      → b ≡ false
      → server.execute default_retry 10 (λ k. send_to_restaurant order_id b) ≡ ok "sent"
  unfolding send_to_restaurant
  send_ok b e = rw e (
      server.completes default_retry 10 _ 0 "sent" (omega arith) (λ j h. elim h [ ]) refl
        (omega arith))

  pub send_rejected :
      (b : Bool)
      → b ≡ true
      → server.execute default_retry 10 (λ k. send_to_restaurant order_id b) ≡ failed
  unfolding send_to_restaurant
  send_rejected b e =
      rw e (server.stops default_retry 10 _ 0 (omega arith) (λ j h. elim h [ ]) refl (omega arith))

  pub poll_ok : server.execute default_retry 10 (λ k. poll_restaurant_accept order_id) ≡ ok true
  unfolding poll_restaurant_accept
  poll_ok =
      server.completes default_retry 10 _ 0 true (omega arith) (λ j h. elim h [ ]) refl
        (omega arith)

  pub pick_up_ok : server.execute default_retry 10 (λ k. mark_picked_up order_id) ≡ ok "picked_up"
  unfolding mark_picked_up
  pick_up_ok =
      server.completes default_retry 10 _ 0 "picked_up" (omega arith) (λ j h. elim h [ ]) refl
        (omega arith)

  pub deliver_ok : server.execute default_retry 10 (λ k. mark_delivered order_id) ≡ ok "delivered"
  unfolding mark_delivered
  deliver_ok =
      server.completes default_retry 10 _ 0 "delivered" (omega arith) (λ j h. elim h [ ]) refl
        (omega arith)

-- Whenever the payment is tried, one of its first 1000 attempts meets no storm.
abbrev pub Pays : Conversions → Saga → Type 0
Pays cv s = (n : ℕ) → (k : ℕ) × (k < 1000) × PassesStorm cv ((s.turns n).sights k)

-- The id of the settlement child is free.
abbrev pub Accepts : Saga → Type 0
Accepts s = (n : ℕ) → (s.turns n).accepted ≡ true

pub after-Pays : (cv : Conversions) (c : Command) (s : Saga) → Pays cv s → Pays cv (after c s)
after-Pays cv c s h = rw (after-turns c s) (λ n. h (suc n))

pub after-Accepts : (c : Command) (s : Saga) → Accepts s → Accepts (after c s)
after-Accepts c s h = rw (after-turns c s) (λ n. h (suc n))

pub payment_ok :
    (server : Server) (cv : Conversions) (order_id : String) (s : Saga)
    → Pays cv s
    → server.execute storm_retry 10 (attempt_payment cv (s.turns 0).sights order_id)
      ≡ ok (receipt order_id)
payment_ok server cv order_id s h =
    let (k, small, pass) = h 0 in
    payment_recovers server cv (s.turns 0).sights order_id k small pass

module _ (name : String) (extra : List Pair) (s : Saga) where
  pub stage-log :
      (stage name extra s).1.log
      ≡ s.log
        ++ (if s.track_stages
            then upsert (set order_stage (AttributeValue.text name) ∷ extra) ∷ []
            else [])
  unfolding stage
  stage-log = elim (Bool-cases s.track_stages) [ inl on ↦ rw on | inr off ↦ rw (off, append-nil) ]

  pub stage-track_stages : (stage name extra s).1.track_stages ≡ s.track_stages
  unfolding stage
  stage-track_stages = elim (Bool-cases s.track_stages) [ inl on ↦ rw on | inr off ↦ rw off ]

  pub stage-turns : (stage name extra s).1.turns ≡ s.turns
  unfolding stage
  stage-turns = elim (Bool-cases s.track_stages) [ inl on ↦ rw on | inr off ↦ rw off ]

  pub stage-courier_id : (stage name extra s).1.courier_id ≡ s.courier_id
  unfolding stage
  stage-courier_id = elim (Bool-cases s.track_stages) [ inl on ↦ rw on | inr off ↦ rw off ]

  pub stage-Accepts : Accepts s → Accepts (stage name extra s).1
  stage-Accepts h = rw stage-turns h

-- The command of step 7: none if a courier is there already.
abbrev pub wait_log : Option String → List Command
wait_log none = wait_until 30 ∷ []
wait_log (some c) = []

fall_back-ne-none : (order_id : String) (o : Option String) → fall_back order_id o ≢ none
fall_back-ne-none order_id none e = cc e
fall_back-ne-none order_id (some c) e = cc e

module _ (order_id : String) (s : Saga) where
  pub await_courier-log : (await_courier order_id s).1.log ≡ s.log ++ wait_log s.courier_id
  unfolding await_courier
  await_courier-log = elim (Option-cases s.courier_id) [
    | inl e ↦ rw e (after-log (wait_until 30) s)
    | inr (c, e) ↦ rw (e, append-nil)
  ]

  pub await_courier-track_stages : (await_courier order_id s).1.track_stages ≡ s.track_stages
  unfolding await_courier
  await_courier-track_stages = elim (Option-cases s.courier_id) [
    | inl e ↦ rw e (after-track_stages (wait_until 30) s)
    | inr (c, e) ↦ rw e
  ]

  pub await_courier-Accepts : Accepts s → Accepts (await_courier order_id s).1
  unfolding await_courier
  await_courier-Accepts h = elim (Option-cases s.courier_id) [
    | inl e ↦ rw e (after-Accepts (wait_until 30) s h)
    | inr (c, e) ↦ rw e h
  ]

  -- The fallback: after the wait there is a courier.
  pub await_courier-ne-none : (await_courier order_id s).1.courier_id ≢ none
  unfolding await_courier
  await_courier-ne-none h = fall_back-ne-none order_id _ h

-- A courier stays, or another is signalled.
pub after-ne-none : (c : Command) (s : Saga) → s.courier_id ≢ none → (after c s).courier_id ≢ none
unfolding after
after-ne-none c s h = receive-ne-none (s.turns 0).signals _ h
  where
    receive-ne-none :
        (signals : List String) (s : Saga)
        → s.courier_id ≢ none
        → (receive signals s).courier_id ≢ none
    receive-ne-none [] s h = h
    receive-ne-none (c ∷ signals) s h = receive-ne-none signals _ (λ e. cc e)
