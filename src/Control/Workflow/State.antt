-- ===== src/Control/Workflow/State.antt =====
-- What `DemoControlWorkflow` keeps of the scenario map (control/workflow.py).
use warden_demo_workload.Prelude.{
  if◌then◌else◌, ℕ, String, Bool, Option, none, some, List, [], ◌∷◌, ◌≡◌, refl, ◌≢◌, ◌∙◌, arith,
  eq_iff, eq_refl, Option-cases, inl, inr, ◌⊎◌, Bool-cases, ◌==◌,
}
use warden_demo_workload.Python.Dict.{Dict, get, first_some, IsDict, put-IsDict, get-update}
use warden_demo_workload.Python.Value.{Value, str}
use warden_demo_workload.Control.Schema.{Scenario, Scenarios, blank, default_scenarios, merge_base}
use warden_demo_workload.Control.Schema.Merge.{
  get-merge_scenario, get-AllParams, IsRegistry, merge_scenario-IsRegistry,
  default_scenarios-IsRegistry, put-IsRegistry, IsKnown,
}
use warden_demo_workload.Control.Cache.{scenario_or_blank}
use warden_demo_workload.Control.Workflow.{
  Control, init, begin, set_scenario, reset_all, set_default, get_scenario, Signal, scenario_set,
  reset, action, handle, handle_all, Run, running, continued, activate, run, update,
}

set_scenario_fields :
    (name : String) (enabled : Bool) (params : Dict Value) (c : Control) (j : String)
    → get_scenario (set_scenario name enabled params c) j ≡ (
        if name == j
        then record {
          enabled = enabled;
          params = update (merge_base c.scenarios name).params params;
        }
        else get_scenario c j)
unfolding set_scenario get_scenario
set_scenario_fields name enabled params c j =
    ground (arith, get-merge_scenario c.scenarios name enabled params j)

-- What the dashboard writes is what the next query reads, when no parameter is listed twice: the
-- switch is set, each parameter is the written one or else the one before, and every other scenario
-- answers as before.
pub set_scenario-get_scenario :
    (name : String) (enabled : Bool) (params : Dict Value) (c : Control) (k j : String)
    → IsDict params
    → let c' = set_scenario name enabled params c in
      ((get_scenario c' name).enabled ≡ enabled)
      × (get (get_scenario c' name).params k
          ≡ first_some (get params k) (get (merge_base c.scenarios name).params k))
      × ((name ≡ j) ⊎ (get_scenario c' j ≡ get_scenario c j))
set_scenario-get_scenario name enabled params c k j h = (
  rw (set_scenario_fields name enabled params c name, eq_refl name) refl,
  rw (set_scenario_fields name enabled params c name, eq_refl name)
      (get-update (merge_base c.scenarios name).params params k h),
  elim (Bool-cases (name == j)) [
    | inl same ↦ inl ((eq_iff name j).0 same)
    | inr other ↦ inr (rw (set_scenario_fields name enabled params c j, other) refl)
  ],
)

merge_base-set_scenario :
    (name : String) (enabled : Bool) (params : Dict Value) (c : Control)
    → merge_base (set_scenario name enabled params c).scenarios name
      ≡ get_scenario (set_scenario name enabled params c) name
unfolding set_scenario get_scenario merge_base
merge_base-set_scenario name enabled params c =
    ground (arith, get-merge_scenario c.scenarios name enabled params name, eq_refl name)

-- A parameter that was set stays when the scenario is next written without any: a write merges over
-- the current parameters, not over the defaults. The parameters that set it are listed once each.
set_scenario_sticky :
    (name : String) (on again : Bool) (params : Dict Value) (k : String) (v : Value) (c : Control)
    → IsDict params
    → get params k ≡ some v
    → get (get_scenario (set_scenario name again [] (set_scenario name on params c)) name).params k
      ≡ some v
unfolding get
set_scenario_sticky name on again params k v c h e =
    let c' : Control = set_scenario name on params c in
    (set_scenario-get_scenario name again [] c' k name tt).1
    ∙ rw (merge_base-set_scenario name on params c)
        (cc (set_scenario-get_scenario name on params c k name h).1)

-- After `reset_all` every query answers as on a new run, whatever was set before.
pub reset_all-get_scenario :
    (c : Control) (name : String) → get_scenario (reset_all c) name ≡ get_scenario init name
unfolding reset_all get_scenario init
reset_all-get_scenario c name = refl

-- The first half of `record_action`: the entry for one-shot actions is there.
set_default-IsRegistry :
    (o : Option Scenario) (s : Scenarios) → IsRegistry s → IsRegistry (set_default o s)
set_default-IsRegistry none s h = put-IsRegistry s "_actions" blank h tt
set_default-IsRegistry (some a) s h = h

scenario_or_blank-params :
    (s : Scenarios) (k : String) → IsRegistry s → IsDict (scenario_or_blank s k).params
unfolding scenario_or_blank
scenario_or_blank-params s k h = elim (Option-cases (get s k)) [
  | inl e ↦ rw e tt
  | inr (t, e) ↦ rw e (get-AllParams s k t h.parameters e)
]

-- Every signal keeps the registry: keys and parameters once each, and no registered scenario lost.
pub handle-IsRegistry :
    (s : Signal) (c : Control) → IsRegistry c.scenarios → IsRegistry (handle s c).scenarios
unfolding handle
handle-IsRegistry (scenario_set name enabled params) c h =
    merge_scenario-IsRegistry c.scenarios name enabled params h
handle-IsRegistry reset c h = default_scenarios-IsRegistry
handle-IsRegistry (action name when) c h =
    let s : Scenarios = set_default (get c.scenarios "_actions") c.scenarios in
    let hs : IsRegistry s = set_default-IsRegistry (get c.scenarios "_actions") c.scenarios h in
    put-IsRegistry s "_actions" _ hs
      (put-IsDict _ name (str when) (scenario_or_blank-params s "_actions" hs))

pub handle_all-IsRegistry :
    (signals : List Signal) (c : Control)
    → IsRegistry c.scenarios
    → IsRegistry (handle_all signals c).scenarios
unfolding handle_all
handle_all-IsRegistry [] c h = h
handle_all-IsRegistry (s ∷ signals) c h =
    handle_all-IsRegistry signals (handle s c) (handle-IsRegistry s c h)

-- The map that a run holds, or passes on.
abbrev map_of : Run → Scenarios
map_of (running c) = c.scenarios
map_of (continued s) = s

activate-IsRegistry :
    (history : ℕ) (signals : List Signal) (c : Control)
    → IsRegistry c.scenarios
    → IsRegistry (map_of (activate history signals c))
unfolding activate
activate-IsRegistry history signals c h =
    let kept : IsRegistry (handle_all signals c).scenarios = handle_all-IsRegistry signals c h in
    ground (arith, kept)

-- Through any activations, from a map that is a registry, the map that the run holds or passes on is
-- a registry: each key once, each parameter once, and no registered scenario lost.
run-IsRegistry :
    (activations : List (ℕ × List Signal)) (r : Run)
    → IsRegistry (map_of r)
    → IsRegistry (map_of (run activations r))
unfolding run
run-IsRegistry [] (running c) h = h
run-IsRegistry [] (continued s) h = h
run-IsRegistry (a ∷ rest) (continued s) h = h
run-IsRegistry ((history, signals) ∷ rest) (running c) h =
    run-IsRegistry rest (activate history signals c) (activate-IsRegistry history signals c h)

retry_storm-IsKnown : IsKnown "retry_storm"
unfolding default_scenarios get
retry_storm-IsKnown = (_, refl)

-- A run that starts from a registry answers every query for a scenario as that registry does.
pub begin-get_scenario :
    (s : Scenarios) (c : Control) (name : String)
    → IsRegistry s
    → get_scenario (begin (some s) c) name ≡ scenario_or_blank s name
unfolding begin get_scenario scenario_or_blank get
begin-get_scenario [] c name h = absurd (h.complete "retry_storm" retry_storm-IsKnown refl)
begin-get_scenario (e ∷ s) c name h = elim (Option-cases (get (e ∷ s) name)) [
  | inr (t, found) ↦ ground (arith, get-update default_scenarios (e ∷ s) name h.keys, found)
  | inl missing ↦ elim (Option-cases (get default_scenarios name)) [
    | inl unknown ↦
        ground (arith, get-update default_scenarios (e ∷ s) name h.keys, missing, unknown)
    | inr known ↦ absurd (h.complete name known missing)
  ]
]

-- What signals wrote before `run` began is gone when a map that is not empty is carried over.
begin_forgets :
    (s : Scenarios) (signals : List Signal) (c : Control)
    → s ≢ []
    → (begin (some s) (handle_all signals c)).scenarios ≡ (begin (some s) c).scenarios
unfolding begin
begin_forgets [] signals c h = absurd (h refl)
begin_forgets (e ∷ s) signals c h = refl
