-- ===== src/Temporal/Upserts.antt =====
-- The upserts among a run's commands.
use warden_demo_workload.Prelude.{◌≡◌, refl, ap, List, [], ◌∷◌, ◌++◌}
use warden_demo_workload.Temporal.{
  Command, activity, local_activity, timer, wait_until, signal, upsert, child, upserts,
}

pub upserts-append : (a b : List Command) → upserts (a ++ b) ≡ upserts a ++ upserts b
upserts-append [] b = refl
upserts-append (upsert pairs ∷ a) b = ap (λ u. pairs ∷ u) (upserts-append a b)
upserts-append (activity n xs ∷ a) b = upserts-append a b
upserts-append (local_activity n xs ∷ a) b = upserts-append a b
upserts-append (timer n ∷ a) b = upserts-append a b
upserts-append (wait_until n ∷ a) b = upserts-append a b
upserts-append (signal i s ∷ a) b = upserts-append a b
upserts-append (child c ∷ a) b = upserts-append a b
