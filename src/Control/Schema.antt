-- ===== src/Control/Schema.antt =====
-- control/schema.py: the scenario map and its upsert.
pub mod Merge
use warden_demo_workload.Prelude.{
  String, Bool, true, false, Option, none, some, List, [], ◌∷◌, or_else, ◌≡◌,
}
use warden_demo_workload.Prelude.Int.{pos}
use warden_demo_workload.Python.Dict.{Dict, get, put, update, first_some}
use warden_demo_workload.Python.Value.{Value, bool, int, float, str}

-- `{"enabled": bool, "params": {...}}`
pub record Scenario : Type 0 where
  pub enabled : Bool
  pub params : Dict Value

abbrev pub Scenarios : Type 0
Scenarios = Dict Scenario

abbrev pub retry_storm : String
retry_storm = "retry_storm"

abbrev pub entity_history : String
entity_history = "entity_history"

abbrev pub close_history_bloat : String
close_history_bloat = "close_history_bloat"

abbrev pub workflow_failure : String
workflow_failure = "workflow_failure"

abbrev pub timeout_spike : String
timeout_spike = "timeout_spike"

abbrev pub fanout_storm : String
fanout_storm = "fanout_storm"

abbrev disabled : Dict Value → Scenario
disabled params = record { enabled = false; params = params }

-- `{"enabled": False, "params": {}}`
abbrev pub blank : Scenario
blank = disabled []

unfoldable pub default_scenarios : Scenarios
default_scenarios =
    (retry_storm, disabled (("failure_probability", float (pos 600000)) ∷ []))
    ∷ (
      entity_history,
      disabled (
          ("region", str "us-west")
          ∷ ("suspend_can", bool true)
          ∷ ("inflate_history", bool true)
          ∷ ("inflate_rate", int (pos 40))
          ∷ []),
    )
    ∷ (close_history_bloat, disabled (("iterations", int (pos 700)) ∷ []))
    ∷ (workflow_failure, disabled (("failure_probability", float (pos 400000)) ∷ []))
    ∷ (
      timeout_spike,
      disabled (("mode", str "workflow") ∷ ("probability", float (pos 500000)) ∷ []),
    )
    ∷ (fanout_storm, disabled (("children", int (pos 400)) ∷ []))
    ∷ []

-- `state.get(name) or defaults.get(name) or {...}`: a scenario is a non-empty dict, hence truthy.
unfoldable pub merge_base : Scenarios → String → Scenario
merge_base state name = or_else (first_some (get state name) (get default_scenarios name)) blank

unfoldable pub merge_scenario : Scenarios → String → Bool → Dict Value → Scenarios
unfolding merge_base
merge_scenario state name enabled params =
    put state name
      (record { enabled = enabled; params = update (merge_base state name).params params })
