-- ===== src/Activities/Tests.antt =====
-- Payments under the retry storm on concrete attempts.
use warden_demo_workload.Prelude.{ℕ, ◌≡◌, refl, true, [], ◌∷◌, arith, inl, ltb, if◌then◌else◌}
use warden_demo_workload.Prelude.Int.{pos}
use warden_demo_workload.Python.Dict.{get}
use warden_demo_workload.Python.Reference.{text_conversions}
use warden_demo_workload.Common.Retry.{storm_retry}
use warden_demo_workload.Control.Schema.{Scenarios, default_scenarios, retry_storm}
use warden_demo_workload.Control.Cache.{is_enabled}
use warden_demo_workload.Temporal.{ok}
use warden_demo_workload.Temporal.Reference.{reference_server}
use warden_demo_workload.Activities.{receipt}
use warden_demo_workload.Activities.Storm.{Sight, attempt_payment, payment_recovers}

-- The storm is on, with the default probability.
abbrev stormy_cache : Scenarios
stormy_cache = (retry_storm, record { enabled = true; params = [] }) ∷ []

-- The storm ends after `n` attempts.
abbrev storm_of : ℕ → ℕ → Sight
unfolding default_scenarios
storm_of n k = record { cache = if ltb k n then stormy_cache else default_scenarios; draw = pos 0 }

payment_recovers_example :
    reference_server.execute storm_retry 10 (attempt_payment text_conversions (storm_of 3) "o1")
    ≡ ok (receipt "o1")
unfolding is_enabled get storm_of
payment_recovers_example =
    payment_recovers reference_server text_conversions (storm_of 3) "o1" 3 (omega arith) (inl refl)
