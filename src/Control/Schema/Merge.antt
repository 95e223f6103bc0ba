-- ===== src/Control/Schema/Merge.antt =====
-- Laws of `merge_scenario` and `default_scenarios` (control/schema.py).
use warden_demo_workload.Prelude.{
  String, Bool, none, some, [], ◌∷◌, ◌≡◌, ◌≢◌, ◌==◌, arith, if◌then◌else◌, inl, inr, Option-cases,
}
use warden_demo_workload.Python.Dict.{
  Dict, get, put, update, IsDict, get-put, put-IsDict, update-IsDict,
}
use warden_demo_workload.Python.Value.{Value}
use warden_demo_workload.Control.Schema.{
  Scenario, Scenarios, default_scenarios, merge_base, merge_scenario,
}

pub get-merge_scenario :
    (state : Scenarios) (name : String) (enabled : Bool) (params : Dict Value) (j : String)
    → get (merge_scenario state name enabled params) j ≡ (
        if name == j
        then some
            (record { enabled = enabled; params = update (merge_base state name).params params })
        else get state j)
unfolding merge_scenario
get-merge_scenario state name enabled params j = get-put state name j _

-- A scenario under which every parameter is listed once.
abbrev pub AllParams : Scenarios → Type 0
AllParams [] = Unit
AllParams ((k, s) ∷ d) = IsDict s.params × AllParams d

pub get-AllParams :
    (d : Scenarios) (k : String) (s : Scenario) → AllParams d → get d k ≡ some s → IsDict s.params
unfolding get
get-AllParams [] k s h e = cc
get-AllParams ((j, t) ∷ d) k s h e = ground (arith, get-AllParams d k s h.1)

pub put-AllParams :
    (d : Scenarios) (k : String) (s : Scenario)
    → AllParams d
    → IsDict s.params
    → AllParams (put d k s)
unfolding put
put-AllParams [] k s h p = (p, tt)
put-AllParams ((j, t) ∷ d) k s h p = ground (arith, put-AllParams d k s h.1 p)

-- The names of the registry.
abbrev pub IsKnown : String → Type 0
IsKnown k = (s : Scenario) × (get default_scenarios k ≡ some s)

-- What a scenario map keeps: each key once, each parameter once, and every registered scenario.
pub record IsRegistry (state : Scenarios) : Type 0 where
  pub keys : IsDict state
  pub parameters : AllParams state
  pub complete : (k : String) → IsKnown k → get state k ≢ none

pub default_scenarios-IsRegistry : IsRegistry default_scenarios
unfolding default_scenarios get
default_scenarios-IsRegistry = record {
  keys = ground arith;
  parameters = ground arith;
  complete = λ k known e. cc (known.1);
}

merge_base-params :
    (state : Scenarios) (name : String) → AllParams state → IsDict (merge_base state name).params
unfolding merge_base
merge_base-params state name h = elim (Option-cases (get state name)) [
  | inr (s, e) ↦ rw e (get-AllParams state name s h e)
  | inl e ↦ rw e (elim (Option-cases (get default_scenarios name)) [
    | inr (s, e') ↦
        rw e' (get-AllParams default_scenarios name s default_scenarios-IsRegistry.parameters e')
    | inl e' ↦ rw e' tt
  ])
]

pub put-IsRegistry :
    (state : Scenarios) (name : String) (s : Scenario)
    → IsRegistry state
    → IsDict s.params
    → IsRegistry (put state name s)
put-IsRegistry state name s h p = record {
  keys = put-IsDict state name s h.keys;
  parameters = put-AllParams state name s h.parameters p;
  complete = λ k known. rw (get-put state name k) (ground (arith, h.complete k known));
}

pub merge_scenario-IsRegistry :
    (state : Scenarios) (name : String) (enabled : Bool) (params : Dict Value)
    → IsRegistry state
    → IsRegistry (merge_scenario state name enabled params)
unfolding merge_scenario
merge_scenario-IsRegistry state name enabled params h =
    put-IsRegistry state name _ h
      (update-IsDict _ params (merge_base-params state name h.parameters))
