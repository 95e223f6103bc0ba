-- ===== src/Control/Workflow/Lifetime.antt =====
-- `DemoControlWorkflow` over its whole life (control/workflow.py): the runs that continue-as-new
-- chains, against the map from names to scenarios that the signals describe.
use warden_demo_workload.Prelude.{
  sym, ltb, leb, ◌||◌, if◌then◌else◌, fun_ext, ℕ, String, Option, some, List, [], ◌∷◌, ◌++◌, ◌≡◌,
  refl, ◌∙◌, arith, or_else, ap, Option-cases, Bool-cases, inl, inr, ◌==◌, eq_iff, Bool,
}
use warden_demo_workload.Python.Dict.{
  Dict, get, put, update, first_some, get-put, get-update, update-IsDict,
}
use warden_demo_workload.Python.Value.{Value, str}
use warden_demo_workload.Control.Schema.{Scenario, Scenarios, blank, default_scenarios, merge_base}
use warden_demo_workload.Control.Cache.{scenario_or_blank}
use warden_demo_workload.Control.Workflow.State.{handle_all-IsRegistry}
use warden_demo_workload.Control.Schema.Merge.{
  AllParams, put-AllParams, default_scenarios-IsRegistry, get-merge_scenario, IsRegistry, IsKnown,
}
use warden_demo_workload.Control.Workflow.{
  Control, max_signals, max_history, wakes, turn, init, begin, set_scenario, record_action,
  set_default, Signal, scenario_set, reset, action, handle, handle_all, Run, running, continued,
  activate,
}

-- The run that goes on: the same one, or the next one of the chain.
unfoldable pub successor : Run → Control
unfolding begin
successor (running c) = c
successor (continued s) = begin (some s) init

-- The activations of all the runs of the chain, each of which begins before it handles its signals.
unfoldable pub lifetime : List (ℕ × List Signal) → Control → Control
unfolding activate successor
lifetime [] c = c
lifetime ((history, signals) ∷ activations) c =
    lifetime activations (successor (activate history signals c))

-- What a client sees: the scenario that each name stands for.
abbrev pub View : Type 0
View = String → Option Scenario

abbrev pub view : Scenarios → View
view s = get s

abbrev write : View → String → Scenario → View
write v name s j = if name == j then some s else v j

-- What each signal means.
abbrev pub meaning : Signal → View → View
meaning (scenario_set name enabled params) v = write v name (record {
  enabled = enabled;
  params = update (or_else (first_some (v name) (view default_scenarios name)) blank).params params;
})
meaning reset v = view default_scenarios
meaning (action name when) v =
    let actions = or_else (v "_actions") blank in
    write v "_actions" (record actions { params = put actions.params name (str when) })

abbrev pub meaning_all : List Signal → View → View
meaning_all [] v = v
meaning_all (s ∷ signals) v = meaning_all signals (meaning s v)

abbrev pub all_signals : List (ℕ × List Signal) → List Signal
all_signals [] = []
all_signals ((history, signals) ∷ activations) = signals ++ all_signals activations

meaning_all-append :
    (a b : List Signal) (v : View) → meaning_all (a ++ b) v ≡ meaning_all b (meaning_all a v)
meaning_all-append [] b v = refl
meaning_all-append (s ∷ a) b v = meaning_all-append a b (meaning s v)

set_scenario-view :
    (name : String) (enabled : Bool) (params : Dict Value) (c : Control)
    → view (set_scenario name enabled params c).scenarios
      ≡ meaning (scenario_set name enabled params) (view c.scenarios)
unfolding set_scenario merge_base
set_scenario-view name enabled params c =
    fun_ext (λ j. get-merge_scenario c.scenarios name enabled params j)

set_default-get :
    (s : Scenarios) (k : String)
    → get (set_default (get s "_actions") s) k
      ≡ (if "_actions" == k then some (or_else (get s "_actions") blank) else get s k)
set_default-get s k = elim (Option-cases (get s "_actions")) [
  | inl e ↦ rw e (get-put s "_actions" k blank)
  | inr (t, e) ↦ rw e (ground (arith, e, eq_iff "_actions" k))
]

record_action-view :
    (name when : String) (c : Control)
    → view (record_action name when c).scenarios ≡ meaning (action name when) (view c.scenarios)
unfolding record_action scenario_or_blank
record_action-view name when c = fun_ext (λ j.
    let s : Scenarios = set_default (get c.scenarios "_actions") c.scenarios in
    let here : get s "_actions" ≡ some (or_else (get c.scenarios "_actions") blank) =
      set_default-get c.scenarios "_actions" in
    rw (get-put s "_actions" j, here) (ground (arith, set_default-get c.scenarios j)))

handle-view :
    (s : Signal) (c : Control) → view (handle s c).scenarios ≡ meaning s (view c.scenarios)
unfolding handle
handle-view (scenario_set name enabled params) c = set_scenario-view name enabled params c
handle-view reset c = refl
handle-view (action name when) c = record_action-view name when c

handle_all-view :
    (signals : List Signal) (c : Control)
    → view (handle_all signals c).scenarios ≡ meaning_all signals (view c.scenarios)
unfolding handle_all
handle_all-view [] c = refl
handle_all-view (s ∷ signals) c =
    handle_all-view signals (handle s c) ∙ ap (meaning_all signals) (handle-view s c)

retry_storm-IsKnown : IsKnown "retry_storm"
unfolding default_scenarios get
retry_storm-IsKnown = (_, refl)

begin-get :
    (s : Scenarios) (c : Control) (k : String)
    → IsRegistry s
    → get (begin (some s) c).scenarios k ≡ get s k
unfolding begin get
begin-get [] c k h = absurd (h.complete "retry_storm" retry_storm-IsKnown refl)
begin-get (e ∷ s) c k h =
    get-update default_scenarios (e ∷ s) k h.keys ∙ (elim (Option-cases (get (e ∷ s) k)) [
      | inr (t, found) ↦ rw found refl
      | inl missing ↦ rw missing (elim (Option-cases (get default_scenarios k)) [
        | inl unknown ↦ unknown
        | inr known ↦ absurd (h.complete k known missing)
      ])
    ])

update-AllParams : (d e : Scenarios) → AllParams d → AllParams e → AllParams (update d e)
unfolding update
update-AllParams d [] h g = h
update-AllParams d ((k, s) ∷ e) h g = update-AllParams (put d k s) e (put-AllParams d k s h g.0) g.1

-- The next run of the chain has a registry again.
begin-IsRegistry :
    (s : Scenarios) (c : Control) → IsRegistry s → IsRegistry (begin (some s) c).scenarios
unfolding begin get
begin-IsRegistry [] c h = absurd (h.complete "retry_storm" retry_storm-IsKnown refl)
begin-IsRegistry (e ∷ s) c h = record {
  keys = update-IsDict default_scenarios (e ∷ s) default_scenarios-IsRegistry.keys;
  parameters =
      update-AllParams default_scenarios (e ∷ s) default_scenarios-IsRegistry.parameters
        h.parameters;
  complete = λ k known. rw (begin-get (e ∷ s) c k h) (h.complete k known);
}

turn-view :
    {v : View} (history : ℕ) (c : Control)
    → IsRegistry c.scenarios
    → view c.scenarios ≡ v
    → let c' = successor (turn history c) in IsRegistry c'.scenarios × (view c'.scenarios ≡ v)
unfolding turn successor
turn-view history c kept seen =
    elim (Bool-cases (leb max_signals c.applied || ltb max_history history)) [
      | inl over ↦ rw over (
        begin-IsRegistry c.scenarios init kept,
        fun_ext (λ k. begin-get c.scenarios init k kept) ∙ seen,
      )
      | inr on ↦ rw on (kept, seen)
    ]

-- One activation, and the next run when it ends this one.
pub successor-turn :
    (history : ℕ) (signals : List Signal) (c : Control)
    → IsRegistry c.scenarios
    → let c' = successor (activate history signals c) in
      IsRegistry c'.scenarios × (view c'.scenarios ≡ meaning_all signals (view c.scenarios))
unfolding activate successor
successor-turn history signals c h =
    let c' : Control = handle_all signals c in
    let kept : IsRegistry c'.scenarios = handle_all-IsRegistry signals c h in
    let seen : view c'.scenarios ≡ meaning_all signals (view c.scenarios) =
      handle_all-view signals c in
    elim (Bool-cases (wakes history c')) [
      | inr blocked ↦ rw blocked (kept, seen)
      | inl woken ↦ rw woken (turn-view history c' kept seen)
    ]

-- Continue-as-new is not seen: over any activations, however often the run is replaced by the next,
-- the scenario under each name is what all the signals, in order, make of the map at the start. That
-- map is a registry, and each run of the chain begins before it handles its signals.
pub lifetime-meaning :
    (activations : List (ℕ × List Signal)) (c : Control)
    → IsRegistry c.scenarios
    → view (lifetime activations c).scenarios
      ≡ meaning_all (all_signals activations) (view c.scenarios)
unfolding lifetime
lifetime-meaning [] c h = refl
lifetime-meaning ((history, signals) ∷ rest) c h =
    let c' : Control = successor (activate history signals c) in
    let (kept, seen) = successor-turn history signals c h in
    lifetime-meaning rest c' kept
    ∙ ap (meaning_all (all_signals rest)) seen
    ∙ sym (meaning_all-append signals (all_signals rest) (view c.scenarios))
