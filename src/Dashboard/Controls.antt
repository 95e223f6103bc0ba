-- ===== src/Dashboard/Controls.antt =====
-- dashboard/app.py: the routes that read and write the scenarios, `health`, and the
-- loop of `terminate_dispatch`. A request finds the client ready or not, and demo-control
-- answering or not.
pub mod Roundtrip
mod Tests
use warden_demo_workload.Prelude.{
  ℕ, zero, suc, String, Bool, true, false, Option, none, some, List, [], ◌∷◌, ◌++◌, if◌then◌else◌,
  length, leb, max,
}
use warden_demo_workload.Prelude.Int.{ℤ, pos, negsuc, pos_part, times, ◌+ℤ◌}
use warden_demo_workload.Python.Dict.{Dict}
use warden_demo_workload.Python.Value.{Value, Micro}
use warden_demo_workload.Control.Schema.{Scenarios, default_scenarios}
use warden_demo_workload.Control.Workflow
use warden_demo_workload.Control.Workflow.{Control}
use warden_demo_workload.Common.Config.{Config}
use warden_demo_workload.Control.Cache.{is_enabled}
use warden_demo_workload.Control.Schema.{retry_storm, fanout_storm}
use warden_demo_workload.Dashboard.{actions_per_order}
use warden_demo_workload.Workers.Backend.{Backend}

-- A response: a body, an `HTTPException` with status 503, or an error that is not caught.
pub data Reply (A : Type 0) : Type 0 where
  body : A → Reply A
  unavailable server_error : Reply A

-- What a request finds: the client, if it is ready, with demo-control's run, if that answers.
abbrev pub Found : Type 0
Found = Option (Option Control)

-- `get_scenarios`: every exception of the query, that of a missing client too, becomes a 503.
unfoldable pub get_scenarios : Found → Reply Scenarios
unfolding Workflow.get_state
get_scenarios none = unavailable
get_scenarios (some none) = unavailable
get_scenarios (some (some c)) = body (Workflow.get_state c)

-- The body of `ScenarioBody`, with the name.
pub record Written : Type 0 where
  pub name : String
  pub enabled : Bool
  pub params : Dict Value

-- `set_scenario`: the signal is handled by demo-control's run.
unfoldable pub set_scenario : Written → Found → Reply Written × Found
unfolding Workflow.set_scenario
set_scenario w none = (unavailable, none)
set_scenario w (some none) = (server_error, some none)
set_scenario w (some (some c)) =
    (body w, some (some (Workflow.set_scenario w.name w.enabled w.params c)))

-- `reset_all`
unfoldable pub reset_all : Found → Reply Bool × Found
unfolding Workflow.reset_all
reset_all none = (unavailable, none)
reset_all (some none) = (server_error, some none)
reset_all (some (some c)) = (body true, some (some (Workflow.reset_all c)))

-- The scenarios that `health` shows: the defaults where the query raises.
unfoldable pub shown_scenarios : Found → Scenarios
unfolding Workflow.get_state
shown_scenarios none = default_scenarios
shown_scenarios (some none) = default_scenarios
shown_scenarios (some (some c)) = Workflow.get_state c

-- The actions per second that `health` estimates, before it rounds them: the orders', a fixed rate for
-- the rest, and what the two storms add.
unfoldable pub estimate : Micro → Bool → Scenarios → Micro
unfolding actions_per_order is_enabled
estimate rate tracking scenarios =
    times (actions_per_order tracking) rate
    +ℤ pos 3700000
    +ℤ pos (if is_enabled scenarios retry_storm then 13000000 else 0)
    +ℤ pos (if is_enabled scenarios fanout_storm then 10000000 else 0)

-- `health`, for the configuration.
unfoldable pub health : (b : Backend) → Config → b.State → Found → Dict String × Scenarios × Micro
unfolding shown_scenarios estimate
health b config s found =
    let scenarios = shown_scenarios found in
    (
      b.states s,
      scenarios,
      estimate config.order_start_rate_per_sec config.order_stage_tracking scenarios,
    )

-- `max(1, body.count)`
abbrev pub limit : ℤ → ℕ
limit count = max 1 (pos_part count)

-- The loop of `terminate_dispatch` over the workflows that are listed: each is terminated, up to the
-- limit.
unfoldable pub terminate_each : ℕ → List String → List String → List String
terminate_each most [] terminated = terminated
terminate_each most (id ∷ listed) terminated =
    let terminated' = terminated ++ id ∷ [] in
    let rest = terminate_each most listed terminated' in
    if leb most (length terminated') then terminated' else rest

-- `terminate_dispatch`, for the ids that the list query gives.
unfoldable pub terminate_dispatch : ℤ → List String → List String
unfolding terminate_each
terminate_dispatch count listed = terminate_each (limit count) listed []
