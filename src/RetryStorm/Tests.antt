-- ===== src/RetryStorm/Tests.antt =====
-- The storm is switched off while a payment is being retried; demo-control continues as new before the
-- worker's next query is answered.
use warden_demo_workload.Prelude.{
  ℕ, ◌≡◌, refl, true, false, [], ◌∷◌, List, ◌++◌, ltb, if◌then◌else◌, arith, inl, ◌≢◌, eq_iff,
  String,
}
use warden_demo_workload.Prelude.Int.{pos}
use warden_demo_workload.Python.Reference.{text_conversions}
use warden_demo_workload.Common.Retry.{storm_retry}
use warden_demo_workload.Temporal.{ok}
use warden_demo_workload.Temporal.Reference.{reference_server}
use warden_demo_workload.Activities.{receipt}
use warden_demo_workload.Activities.Storm.{Sight, attempt_payment}
use warden_demo_workload.Control.Schema.{Scenarios, retry_storm}
use warden_demo_workload.Control.Schema.Merge.{default_scenarios-IsRegistry}
use warden_demo_workload.Control.Workflow
use warden_demo_workload.Control.Workflow.{scenario_set, reset}
use warden_demo_workload.Dashboard.Controls.{Written}
use warden_demo_workload.RetryStorm.{
  System, Turn, activated, read, missed, after, posted, switched_off-recovers,
}

abbrev stormy_cache : Scenarios
stormy_cache = (retry_storm, record { enabled = true; params = [] }) ∷ []

abbrev system : System
unfolding Workflow.init
system = record { control = Workflow.init; cache = stormy_cache }

abbrev off : Written
off = record { name = retry_storm; enabled = false; params = [] }

abbrev earlier : List Turn
earlier = missed ∷ activated 1501 (scenario_set "timeout_spike" true [] ∷ []) ∷ []

abbrev later : List Turn
later = missed ∷ activated 10 (reset ∷ []) ∷ []

-- The first two attempts meet the storm.
abbrev sights : ℕ → Sight
sights k = record {
  cache =
      if ltb k 2 then stormy_cache else (after (earlier ++ read ∷ later) (posted off system)).cache;
  draw = pos 0;
}

timeout_ne_storm : ◌≢◌ {A = String} "timeout_spike" "retry_storm"
timeout_ne_storm e = ground (arith, eq_iff "timeout_spike" "retry_storm")

switched_off-recovers_example :
    reference_server.execute storm_retry 10 (attempt_payment text_conversions sights "o1")
    ≡ ok (receipt "o1")
unfolding system
switched_off-recovers_example =
    switched_off-recovers reference_server text_conversions off system earlier later sights "o1" 2
      default_scenarios-IsRegistry (refl, refl)
      (tt, ((inl timeout_ne_storm, tt), (tt, (tt, ((tt, tt), tt))))) refl (omega arith)
