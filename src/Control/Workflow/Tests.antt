-- ===== src/Control/Workflow/Tests.antt =====
-- Runs of demo-control on concrete signals.
use warden_demo_workload.Prelude.{ℕ, ◌≡◌, refl, true, List, [], ◌∷◌, ◌↔◌, All}
use warden_demo_workload.Control.Schema.{retry_storm}
use warden_demo_workload.Control.Schema.Merge.{default_scenarios-IsRegistry}
use warden_demo_workload.Control.Workflow.{
  Control, init, Signal, scenario_set, reset, action, running, run,
}
use warden_demo_workload.Control.Workflow.Bounds.{IsRunning, IsSmall, run-IsRunning_iff}
use warden_demo_workload.Control.Workflow.Lifetime.{
  view, lifetime, meaning_all, all_signals, lifetime-meaning,
}

-- Two activations, the second on a long history.
abbrev visits : List (ℕ × List Signal)
visits =
    (20, scenario_set retry_storm true [] ∷ reset ∷ [])
    ∷ (1501, action "kill_worker" "12:00" ∷ [])
    ∷ []

abbrev fresh : Control
unfolding init
fresh = init

run-IsRunning_iff_example : IsRunning (run visits (running fresh)) ↔ All IsSmall visits
unfolding init
run-IsRunning_iff_example = run-IsRunning_iff visits fresh refl

-- The second activation ends the first run of the chain.
lifetime-meaning_example :
    view (lifetime visits fresh).scenarios ≡ meaning_all (all_signals visits) (view fresh.scenarios)
unfolding init
lifetime-meaning_example = lifetime-meaning visits fresh default_scenarios-IsRegistry
