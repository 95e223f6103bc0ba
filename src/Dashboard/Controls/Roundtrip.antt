-- ===== src/Dashboard/Controls/Roundtrip.antt =====
-- What the scenario routes and the termination of dispatch entities do (dashboard/app.py).
use warden_demo_workload.Prelude.{
  ℕ, zero, suc, ◌+◌, ◌-◌, ◌≡◌, refl, ◌∙◌, sym, ap, String, true, false, some, List, [], ◌∷◌, ◌++◌,
  length, length-append, leb, take, append-nil, append_assoc, arith, ◌⊎◌,
}
use warden_demo_workload.Prelude.Int.{ℤ}
use warden_demo_workload.Python.Dict.{get, first_some, IsDict}
use warden_demo_workload.Control.Schema.{Scenarios, merge_base}
use warden_demo_workload.Control.Cache.{scenario_or_blank}
use warden_demo_workload.Control.Workflow
use warden_demo_workload.Control.Workflow.{Control}
use warden_demo_workload.Control.Workflow.State.{set_scenario-get_scenario}
use warden_demo_workload.Dashboard.Controls.{
  terminate_each, terminate_dispatch, limit, Written, Reply, body, Found, get_scenarios,
  shown_scenarios, set_scenario,
}

full-leb :
    (most : ℕ) (id : String) (terminated : List String)
    → leb most (length (terminated ++ id ∷ [])) ≡ leb most (length terminated + 1)
full-leb most id terminated = rw (length-append terminated (id ∷ [])) refl

-- The loop with `left` + 1 to go.
terminate_each-take :
    (most left : ℕ) (listed terminated : List String)
    → most ≡ length terminated + suc left
    → terminate_each most listed terminated ≡ terminated ++ take (suc left) listed
unfolding terminate_each
terminate_each-take most left [] terminated h = rw append-nil refl
terminate_each-take most zero (id ∷ listed) terminated h =
    let full : leb most (length (terminated ++ id ∷ [])) ≡ true =
      full-leb most id terminated ∙ ground (arith, h) in
    rw full refl
terminate_each-take most (suc left) (id ∷ listed) terminated h =
    let room : leb most (length (terminated ++ id ∷ [])) ≡ false =
      full-leb most id terminated ∙ ground (arith, h) in
    rw room (
      terminate_each-take most left listed (terminated ++ id ∷ [])
        (omega (arith, h, length-append terminated (id ∷ [])))
      ∙ append_assoc terminated (id ∷ []) (take (suc left) listed))

limit-suc : (count : ℤ) → limit count ≡ suc (limit count - 1)
limit-suc count = omega arith

-- A request to terminate dispatch entities terminates the first ones that are listed, as many as it
-- asks for, and one if it asks for none or for a negative number.
pub terminate_dispatch-take :
    (count : ℤ) (listed : List String) → terminate_dispatch count listed ≡ take (limit count) listed
unfolding terminate_dispatch
terminate_dispatch-take count listed =
    terminate_each-take (limit count) (limit count - 1) listed [] (omega arith)
    ∙ ap (λ n. take n listed) (sym (limit-suc count))

-- What the routes tell after a write that succeeds: the scenario has the switch that was sent, with
-- its parameters over those it had, every other scenario is as it was, and `health` shows the same
-- map.
pub record IsWritten (w : Written) (c : Control) (r : Reply Written × Found) : Type 0 where
  pub replied : r.0 ≡ body w
  pub after : Scenarios
  pub told : get_scenarios r.1 ≡ body after
  pub shown : shown_scenarios r.1 ≡ after
  pub switched : (scenario_or_blank after w.name).enabled ≡ w.enabled
  pub merged :
      (k : String)
      → get (scenario_or_blank after w.name).params k
        ≡ first_some (get w.params k) (get (merge_base c.scenarios w.name).params k)
  pub others :
      (j : String) → (w.name ≡ j) ⊎ (scenario_or_blank after j ≡ scenario_or_blank c.scenarios j)

-- What is posted to a scenario is what the dashboard then reads, if the client is ready and
-- demo-control answers, and no parameter is posted twice.
pub set_scenario-IsWritten :
    (w : Written) (c : Control) → IsDict w.params → IsWritten w c (set_scenario w (some (some c)))
unfolding set_scenario get_scenarios shown_scenarios Workflow.get_scenario
set_scenario-IsWritten w c h = record {
  replied = refl;
  after = (Workflow.set_scenario w.name w.enabled w.params c).scenarios;
  told = refl;
  shown = refl;
  switched = (set_scenario-get_scenario w.name w.enabled w.params c "" "" h).0;
  merged = λ k. (set_scenario-get_scenario w.name w.enabled w.params c k "" h).1;
  others = λ j. (set_scenario-get_scenario w.name w.enabled w.params c "" j h).2;
}
