-- ===== src/Temporal/Reference.antt =====
-- A server that meets the interface of Temporal.antt: attempts one after another.
use warden_demo_workload.Prelude.{
  ℕ, zero, suc, ◌+◌, ◌≤◌, ◌<◌, ◌≡◌, refl, inl, inr, arith, ltb, if◌then◌else◌, dec_lt, ◌∙◌,
}
use warden_demo_workload.Temporal.{
  Attempt, Ending, completed, retryable, non_retryable, Outcome, ok, failed, IsTransient, Server,
}

-- What one attempt decides, or else the attempts that follow.
abbrev pub decide_by : {A : Type 0} → ℕ → Ending A → ℕ → Outcome A → Outcome A
decide_by timeout retryable seconds rest = rest
decide_by timeout (completed v) seconds rest = if ltb timeout seconds then rest else ok v
decide_by timeout non_retryable seconds rest = if ltb timeout seconds then rest else failed

-- The attempts from number `i` on, of which `left` may be made.
pub attempts_from : {A : Type 0} → ℕ → ℕ → (ℕ → Attempt A) → ℕ → Outcome A
attempts_from timeout zero f i = failed
attempts_from timeout (suc left) f i =
    let rest = attempts_from timeout left f (suc i) in
    decide_by timeout (f i).ending (f i).seconds rest

module _ {A : Type 0} (timeout : ℕ) (f : ℕ → Attempt A) where
  skip :
      (left i : ℕ)
      → IsTransient timeout (f i)
      → attempts_from timeout (suc left) f i ≡ attempts_from timeout left f (suc i)
  unfolding attempts_from
  skip left i (inl e) = rw e
  skip left i (inr late) = ground arith

  -- The first attempt that is not transient decides.
  pub finds :
      (left i k : ℕ) (r : Outcome A)
      → i ≤ k
      → k < i + left
      → ((j : ℕ) → i ≤ j → j < k → IsTransient timeout (f j))
      → ((rest : Outcome A) → decide_by timeout (f k).ending (f k).seconds rest ≡ r)
      → attempts_from timeout left f i ≡ r
  unfolding attempts_from
  finds zero i k r from below before here = absurd (omega arith)
  finds (suc left) i k r from below before here = elim (dec_lt i k) [
    | yes earlier ↦
        skip left i (before i (omega arith) earlier)
        ∙ finds left (suc i) k r (omega arith) (omega arith) (λ j h. before j (omega arith)) here
    | no last ↦
        let same : i ≡ k = omega arith in rw same (here (attempts_from timeout left f (suc k)))
  ]

  pub exhausted :
      (left i : ℕ)
      → ((j : ℕ) → i ≤ j → j < i + left → IsTransient timeout (f j))
      → attempts_from timeout left f i ≡ failed
  unfolding attempts_from
  exhausted zero i h = refl
  exhausted (suc left) i h =
      skip left i (h i (omega arith) (omega arith))
      ∙ exhausted left (suc i) (λ j from below. h j (omega arith) (omega arith))

pub completed_decides :
    {A : Type 0} (timeout : ℕ) (a : Attempt A) (v : A)
    → a.ending ≡ completed v
    → a.seconds ≤ timeout
    → (rest : Outcome A) → decide_by timeout a.ending a.seconds rest ≡ ok v
completed_decides timeout a v e h rest = rw e (ground arith)

pub non_retryable_decides :
    {A : Type 0} (timeout : ℕ) (a : Attempt A)
    → a.ending ≡ non_retryable
    → a.seconds ≤ timeout
    → (rest : Outcome A) → decide_by timeout a.ending a.seconds rest ≡ failed
non_retryable_decides timeout a e h rest = rw e (ground arith)

unfoldable pub reference_server : Server
unfolding attempts_from
reference_server = record {
  execute = λ policy timeout f. attempts_from timeout policy.maximum_attempts f 0;
  completes = λ policy timeout f k v below before e intime.
      finds timeout f policy.maximum_attempts 0 k (ok v) (omega arith) (omega arith)
        (λ j h. before j) (completed_decides timeout (f k) v e intime);
  stops = λ policy timeout f k below before e intime.
      finds timeout f policy.maximum_attempts 0 k failed (omega arith) (omega arith)
        (λ j h. before j) (non_retryable_decides timeout (f k) e intime);
  exhausts = λ policy timeout f before.
      exhausted timeout f policy.maximum_attempts 0 (λ j h below. before j (omega arith));
}
