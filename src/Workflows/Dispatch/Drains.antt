-- ===== src/Workflows/Dispatch/Drains.antt =====
-- A dispatch region answers every order (workflows/dispatch.py).
use warden_demo_workload.Prelude.{
  ℕ, ◌+◌, ◌*◌, ◌≤◌, ◌≡◌, ◌≢◌, ◌⊎◌, refl, ap, sym, ◌∙◌, String, List, [], ◌∷◌, ◌++◌, length, map,
  inl, inr, arith, append-nil,
}
use warden_demo_workload.Common.Models.{PendingOrder}
use warden_demo_workload.Workflows.Dispatch.{
  Point, Entity, waiting, marking, pausing, assigning, answering, continued,
}
use warden_demo_workload.Workflows.Dispatch.Queue.{
  answers, queue, in_flight, workflow_ids, all_arrivals,
}
use warden_demo_workload.Workflows.Dispatch.Carry.{IsContinued}
use warden_demo_workload.Workflows.Dispatch.Lifetime.{step, lifetime, lifetime-queue}
use warden_demo_workload.Workflows.Dispatch.Progress.{idle, delay, cost, Advances, step-Advances}

all_arrivals-idle : (histories : List ℕ) → all_arrivals (map idle histories) ≡ []
all_arrivals-idle [] = refl
all_arrivals-idle (history ∷ histories) = all_arrivals-idle histories

empty_or_not : (xs : List String) → (xs ≡ []) ⊎ (xs ≢ [])
empty_or_not [] = inl refl
empty_or_not (x ∷ xs) = inr (λ e. cc e)

-- No activation, and nothing to do.
cost-zero :
    (p : Point) (pending : List PendingOrder)
    → delay p + 2 * length pending ≤ 0
    → in_flight p ++ workflow_ids pending ≡ []
cost-zero waiting [] h = refl
cost-zero pausing [] h = refl
cost-zero (answering o c) [] h = refl
cost-zero (continued s ps) [] h = refl
cost-zero (assigning o c) [] h = absurd (omega (arith, h))
cost-zero (marking n) [] h = absurd (omega (arith, h))
cost-zero p (o ∷ pending) h = absurd (omega (arith, h))

append-empty : (xs ys : List String) → xs ++ ys ≡ [] → ys ≡ []
append-empty [] ys h = h
append-empty (x ∷ xs) ys h = cc h

lifetime-drains :
    (histories : List ℕ) (e : Entity)
    → ¬ IsContinued e.point
    → cost e ≤ length histories
    → queue (lifetime (map idle histories) e).0 ≡ []
unfolding lifetime
lifetime-drains [] e live h = cost-zero e.point e.fields.pending h
lifetime-drains (history ∷ histories) e live h = elim (empty_or_not (queue e)) [
  | inl empty ↦ append-empty _ _ (
      lifetime-queue (map idle (history ∷ histories)) e live
      ∙ rw (empty, all_arrivals-idle histories) refl)
  | inr left ↦
      let e' : Entity = (step (idle history) e).0 in
      let advanced : Advances (cost e) e' = step-Advances history e live left in
      lifetime-drains histories e' advanced.live (omega (arith, h, advanced.less))
]

-- Every order is answered: once as many awaits are done as an order in hand, the markers, and two
-- for each pending order take, in any history and with no further signal, all the queued workflows
-- have been sent a courier, in order, and nothing is queued.
pub lifetime-answers :
    (histories : List ℕ) (e : Entity)
    → ¬ IsContinued e.point
    → cost e ≤ length histories
    → let (e', commands) = lifetime (map idle histories) e in
      (answers commands ≡ queue e) × (queue e' ≡ [])
lifetime-answers histories e live h =
    let drained : queue (lifetime (map idle histories) e).0 ≡ [] =
      lifetime-drains histories e live h in
    (
      sym (append-nil (answers (lifetime (map idle histories) e).1))
          ∙ ap (λ q. answers (lifetime (map idle histories) e).1 ++ q) (sym drained)
          ∙ lifetime-queue (map idle histories) e live
          ∙ rw (all_arrivals-idle histories, append-nil) refl,
      drained,
    )
