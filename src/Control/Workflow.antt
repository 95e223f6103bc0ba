-- ===== src/Control/Workflow.antt =====
-- control/workflow.py: `DemoControlWorkflow`. The run's history length comes from the server, so
-- it is an argument of what reads it.
pub mod Bounds
pub mod State
pub mod Lifetime
mod Tests
use warden_demo_workload.Prelude.{
  ℕ, ◌+◌, String, Bool, false, Option, none, some, List, [], ◌∷◌, ltb, leb, ◌||◌, if◌then◌else◌,
}
use warden_demo_workload.Python.Dict.{Dict, get, put, update}
use warden_demo_workload.Python.Value.{Value, str}
use warden_demo_workload.Control.Schema.{
  Scenario, Scenarios, blank, default_scenarios, merge_scenario,
}
use warden_demo_workload.Control.Cache.{scenario_or_blank}

abbrev pub max_signals : ℕ
max_signals = 500

abbrev pub max_history : ℕ
max_history = 1500

-- `self._scenarios` and `self._applied`.
pub record Control : Type 0 where
  pub scenarios : Scenarios
  pub applied : ℕ

-- `__init__`
unfoldable pub init : Control
init = record { scenarios = default_scenarios; applied = 0 }

-- The start of `run`, up to the loop: an empty map counts as no map.
unfoldable pub begin : Option Scenarios → Control → Control
begin none c = c
begin (some []) c = c
begin (some (e ∷ carried)) c = record c { scenarios = update default_scenarios (e ∷ carried) }

unfoldable pub set_scenario : String → Bool → Dict Value → Control → Control
set_scenario name enabled params c = record {
  scenarios = merge_scenario c.scenarios name enabled params;
  applied = c.applied + 1;
}

unfoldable pub reset_all : Control → Control
reset_all c = record { scenarios = default_scenarios; applied = c.applied + 1 }

-- `self._scenarios.setdefault("_actions", ...)`
abbrev pub set_default : Option Scenario → Scenarios → Scenarios
set_default none s = put s "_actions" blank
set_default (some _) s = s

-- `self._scenarios["_actions"]["params"][name] = when`
unfoldable pub record_action : String → String → Control → Control
unfolding scenario_or_blank
record_action name when c =
    let s = set_default (get c.scenarios "_actions") c.scenarios in
    let actions = scenario_or_blank s "_actions" in
    record {
      scenarios = put s "_actions" (record actions { params = put actions.params name (str when) });
      applied = c.applied + 1;
    }

unfoldable pub get_state : Control → Scenarios
get_state c = c.scenarios

unfoldable pub get_scenario : Control → String → Scenario
unfolding scenario_or_blank
get_scenario c name = scenario_or_blank c.scenarios name

pub data Signal : Type 0 where
  scenario_set : String → Bool → Dict Value → Signal
  reset : Signal
  action : String → String → Signal

-- The handler of a signal.
unfoldable pub handle : Signal → Control → Control
unfolding set_scenario reset_all record_action
handle (scenario_set name enabled params) c = set_scenario name enabled params c
handle reset c = reset_all c
handle (action name when) c = record_action name when c

unfoldable pub handle_all : List Signal → Control → Control
unfolding handle
handle_all [] c = c
handle_all (s ∷ signals) c = handle_all signals (handle s c)

-- The condition of `wait_condition`.
unfoldable pub wakes : ℕ → Control → Bool
wakes history c = ltb 0 c.applied || ltb max_history history

-- Where the run stands: still in its loop, or continued as new with the map it passes on.
pub data Run : Type 0 where
  running : Control → Run
  continued : Scenarios → Run

-- The body of the loop, after the wait.
unfoldable pub turn : ℕ → Control → Run
turn history c =
    if leb max_signals c.applied || ltb max_history history
    then continued c.scenarios
    else running (record c { applied = 0 })

-- One activation: the signals that it brings are handled, then the wait is tested.
unfoldable pub activate : ℕ → List Signal → Control → Run
unfolding handle_all wakes turn
activate history signals c =
    let c' = handle_all signals c in if wakes history c' then turn history c' else running c'

-- A run through a list of activations, each with its history length; a continued run takes none.
unfoldable pub run : List (ℕ × List Signal) → Run → Run
unfolding activate
run activations (continued s) = continued s
run [] (running c) = running c
run ((history, signals) ∷ activations) (running c) = run activations (activate history signals c)
