-- ===== src/Activities/Storm.antt =====
-- When `authorize_payment` fails (activities/order.py), and what its retry policy makes of it.
use native.Mathlib.Nat.{add-zero, add-suc, suc-add, zero-add}
use warden_demo_workload.Prelude.{
  sym, subst, ◌∙◌, dec_lt, ◌+◌, ℕ, zero, suc, ◌≤◌, ◌<◌, ◌≡◌, refl, ◌⊎◌, inl, inr, arith, String,
  false, Bool-cases,
}
use warden_demo_workload.Prelude.Int.{ltb_ℤ, ◌≤ℤ◌}
use warden_demo_workload.Python.Value.{Conversions, Micro}
use warden_demo_workload.Python.Value
use warden_demo_workload.Common.Retry.{storm_retry}
use warden_demo_workload.Control.Schema.{Scenarios, retry_storm}
use warden_demo_workload.Control.Cache.{is_enabled}
use warden_demo_workload.Temporal.{
  Attempt, completed, retryable, ok, failed, Server, TransientBelow,
}
use warden_demo_workload.Activities.{
  receipt, payment_ending, authorize_payment, storm_probability, receipt,
}

-- What one attempt sees of its worker: the control cache, and the random draw.
pub record Sight : Type 0 where
  pub cache : Scenarios
  pub draw : Micro

abbrev pub attempt_payment : Conversions → (ℕ → Sight) → String → ℕ → Attempt String
attempt_payment cv sights order_id k =
    authorize_payment cv (sights k).cache (sights k).draw order_id

-- The attempt does not meet the storm: it is off, or the draw is not below the probability.
abbrev pub PassesStorm : Conversions → Sight → Type 0
PassesStorm cv s =
    (is_enabled s.cache retry_storm ≡ false)
    ⊎ ((p : Micro) × (storm_probability cv s.cache ≡ Value.ok p) × (p ≤ℤ s.draw))

abbrev PassesDraw : Value.Result Micro → Micro → Type 0
PassesDraw r draw = (p : Micro) × (r ≡ Value.ok p) × (p ≤ℤ draw)

draw_cases :
    (r : Value.Result Micro) (draw : Micro) (paid : String)
    → ((payment_ending r draw paid ≡ retryable) × ¬ PassesDraw r draw)
      ⊎ ((payment_ending r draw paid ≡ completed paid) × PassesDraw r draw)
draw_cases (Value.raised e) draw paid = inl (refl, λ q. cc q.1)
draw_cases (Value.ok p) draw paid = elim (Bool-cases (ltb_ℤ draw p)) [
  | inl below ↦ inl (rw below, λ q. ground arith)
  | inr above ↦ inr (rw above, (p, refl, ground arith))
]

payment_cases :
    (cv : Conversions) (s : Sight) (order_id : String)
    → (((authorize_payment cv s.cache s.draw order_id).ending ≡ retryable) × ¬ PassesStorm cv s)
      ⊎ (((authorize_payment cv s.cache s.draw order_id).ending ≡ completed (receipt order_id))
          × PassesStorm cv s)
unfolding authorize_payment
payment_cases cv s order_id = elim (Bool-cases (is_enabled s.cache retry_storm)) [
  | inl on ↦ rw on (elim (draw_cases (storm_probability cv s.cache) s.draw (receipt order_id)) [
    | inl (fails, high) ↦ inl (fails, λ q. elim q [ inl off ↦ cc off | inr low ↦ high low ])
    | inr (passes, low) ↦ inr (passes, inr low)
  ])
  | inr off ↦ inr (rw off, inl off)
]

payment_seconds :
    (cv : Conversions) (s : Sight) (order_id : String)
    → (authorize_payment cv s.cache s.draw order_id).seconds ≡ 0
unfolding authorize_payment
payment_seconds cv s order_id = refl

module _ (cv : Conversions) (sights : ℕ → Sight) (order_id : String) where
  abbrev attempts : ℕ → Attempt String
  attempts = attempt_payment cv sights order_id

  below_suc :
      (i : ℕ)
      → (attempts i).ending ≡ retryable
      → TransientBelow 10 attempts i
      → TransientBelow 10 attempts (suc i)
  below_suc i fails before j h = elim (dec_lt j i) [
    | yes earlier ↦ before j earlier
    | no last ↦ let same : j ≡ i = omega arith in inl (rw same fails)
  ]

  -- The first attempt from `i` on that passes, if attempt `i + d` does.
  first_pass :
      (i d : ℕ)
      → TransientBelow 10 attempts i
      → PassesStorm cv (sights (i + d))
      → (m : ℕ) × (m ≤ i + d)
        × TransientBelow 10 attempts m
        × ((attempts m).ending ≡ completed (receipt order_id))
  first_pass i zero before pass = elim (payment_cases cv (sights i) order_id) [
    | inl (fails, storm) ↦ absurd (storm (subst (λ n. PassesStorm cv (sights n)) (add-zero i) pass))
    | inr (paid, calm) ↦ (i, omega arith, before, paid)
  ]
  first_pass i (suc d) before pass = elim (payment_cases cv (sights i) order_id) [
    | inl (fails, storm) ↦
        let (m, le, below, paid) =
          first_pass (suc i) d (below_suc i fails before)
            (subst (λ n. PassesStorm cv (sights n)) (add-suc i d ∙ sym (suc-add i d)) pass) in
        (m, omega arith, below, paid)
    | inr (paid, calm) ↦ (i, omega arith, before, paid)
  ]

-- The retry storm does not fail an order that lasts: if one of the first 1000 attempts meets no
-- storm, the activity gives the receipt.
pub payment_recovers :
    (server : Server) (cv : Conversions) (sights : ℕ → Sight) (order_id : String) (k : ℕ)
    → k < 1000
    → PassesStorm cv (sights k)
    → server.execute storm_retry 10 (attempt_payment cv sights order_id) ≡ ok (receipt order_id)
payment_recovers server cv sights order_id k small pass =
    let (m, le, below, paid) =
      first_pass cv sights order_id 0 k (λ j h. elim h [ ])
        (subst (λ n. PassesStorm cv (sights n)) (sym (zero-add k)) pass) in
    server.completes storm_retry 10 (attempt_payment cv sights order_id) m (receipt order_id)
      (omega arith) below paid (omega (arith, payment_seconds cv (sights m) order_id))

-- The retry storm fails the activity if all of the first 1000 attempts meet it.
payment_exhausts :
    (server : Server) (cv : Conversions) (sights : ℕ → Sight) (order_id : String)
    → ((k : ℕ) → k < 1000 → ¬ PassesStorm cv (sights k))
    → server.execute storm_retry 10 (attempt_payment cv sights order_id) ≡ failed
payment_exhausts server cv sights order_id storm =
    server.exhausts storm_retry 10 (attempt_payment cv sights order_id) λ k h.
      elim (payment_cases cv (sights k) order_id) [
        | inl (fails, storming) ↦ inl fails
        | inr (paid, calm) ↦ absurd (storm k h calm)
      ]
