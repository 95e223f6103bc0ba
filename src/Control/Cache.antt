-- ===== src/Control/Cache.antt =====
-- control/cache.py: the scenario map that a worker process reads, and its refresher.
use warden_demo_workload.Prelude.{String, Bool, List, [], ◌∷◌, or_else}
use warden_demo_workload.Python.Dict.{Dict, get}
use warden_demo_workload.Python.Value.{Value}
use warden_demo_workload.Control.Schema.{Scenario, Scenarios, blank, default_scenarios}

-- The module global `_scenarios` at import.
abbrev pub initial_cache : Scenarios
initial_cache = default_scenarios

-- `d.get(name, blank)`
unfoldable pub scenario_or_blank : Scenarios → String → Scenario
scenario_or_blank scenarios name = or_else (get scenarios name) blank

unfoldable pub get_scenarios : Scenarios → Scenarios
get_scenarios cache = cache

unfoldable pub get_scenario : Scenarios → String → Scenario
unfolding scenario_or_blank
get_scenario cache name = scenario_or_blank cache name

unfoldable pub is_enabled : Scenarios → String → Bool
unfolding scenario_or_blank
is_enabled cache name = (scenario_or_blank cache name).enabled

unfoldable pub get_params : Scenarios → String → Dict Value
unfolding scenario_or_blank
get_params cache name = (scenario_or_blank cache name).params

-- What one query of demo-control gives: a map, an answer that is no dict, or an exception.
pub data Answer : Type 0 where
  state : Scenarios → Answer
  not_a_dict failed : Answer

-- One round of `run_control_refresher`.
unfoldable pub refresh : Scenarios → Answer → Scenarios
refresh cache (state s) = s
refresh cache not_a_dict = cache
refresh cache failed = cache

unfoldable pub run_control_refresher : Scenarios → List Answer → Scenarios
unfolding refresh
run_control_refresher cache [] = cache
run_control_refresher cache (a ∷ answers) = run_control_refresher (refresh cache a) answers
