-- ===== src/Control/Workflow/Bounds.antt =====
-- When `DemoControlWorkflow` continues as new (control/workflow.py).
use warden_demo_workload.Prelude.{
  dec_lt, inl, inr, ℕ, ◌+◌, ◌≤◌, ◌<◌, ◌≡◌, refl, ◌⊎◌, List, [], ◌∷◌, arith, length, ◌↔◌, All,
}
use warden_demo_workload.Control.Workflow.{
  Control, Signal, scenario_set, reset, action, Run, running, continued, handle, handle_all,
  activate, run, max_signals, max_history, Scenarios,
}

applied-handle : (s : Signal) (c : Control) → (handle s c).applied ≡ c.applied + 1
unfolding handle
applied-handle (scenario_set name enabled params) c = refl
applied-handle reset c = refl
applied-handle (action name when) c = refl

pub applied-handle_all :
    (signals : List Signal) (c : Control)
    → (handle_all signals c).applied ≡ c.applied + length signals
unfolding handle_all
applied-handle_all [] c = omega arith
applied-handle_all (s ∷ signals) c =
    omega (arith, applied-handle_all signals (handle s c), applied-handle s c)

-- The run is in its loop, at rest.
abbrev pub IsResting : Run → Type 0
IsResting (running c) = c.applied ≡ 0
IsResting (continued s) = Unit

abbrev pub IsRunning : Run → Type 0
IsRunning (running c) = Unit
IsRunning (continued s) = ⊥

pub activate-IsResting :
    (history : ℕ) (signals : List Signal) (c : Control) → IsResting (activate history signals c)
unfolding activate
activate-IsResting history signals c = ground arith

pub activate-continues :
    (history : ℕ) (signals : List Signal) (c : Control)
    → c.applied ≡ 0
    → (activate history signals c ≡ continued (handle_all signals c).scenarios)
      ↔ ((max_signals ≤ length signals) ⊎ (max_history < history))
unfolding activate
activate-continues history signals c h = ground (arith, applied-handle_all signals c)

-- An activation with fewer than 500 signals on a history of at most 1500 events.
abbrev pub IsSmall : ℕ × List Signal → Type 0
IsSmall (history, signals) = (length signals < max_signals) × (history ≤ max_history)

abbrev Activation : ℕ → List Signal → Control → Type 0
Activation history signals c =
    (IsSmall (history, signals)
      × ((c' : Control) × (activate history signals c ≡ running c') × (c'.applied ≡ 0)))
    ⊎ (¬ IsSmall (history, signals)
        × ((s : Scenarios) × (activate history signals c ≡ continued s)))

activate_stays :
    (history : ℕ) (signals : List Signal) (c : Control)
    → c.applied ≡ 0
    → length signals < max_signals
    → history ≤ max_history
    → activate history signals c ≡ running (record (handle_all signals c) { applied = 0 })
unfolding activate
activate_stays history signals c h few short = ground (arith, applied-handle_all signals c)

activate-cases :
    (history : ℕ) (signals : List Signal) (c : Control)
    → c.applied ≡ 0
    → Activation history signals c
activate-cases history signals c h = elim (dec_lt (length signals) max_signals) [
  | no many ↦ inr (
    λ small. many small.0,
    (
      (handle_all signals c).scenarios,
      (activate-continues history signals c h).1 (inl (omega arith)),
    ),
  )
  | yes few ↦ elim (dec_lt max_history history) [
    | yes long ↦ inr (
      λ small. omega arith,
      ((handle_all signals c).scenarios, (activate-continues history signals c h).1 (inr long)),
    )
    | no short ↦ inl (
      (few, omega arith),
      (
        record (handle_all signals c) { applied = 0 },
        activate_stays history signals c h few (omega arith),
        refl,
      ),
    )
  ]
]

-- A resting run is still in its loop after the activations exactly when none of them brought 500
-- signals or more or came on a history of more than 1500 events: signals do not add up from one
-- activation to the next.
pub run-IsRunning_iff :
    (activations : List (ℕ × List Signal)) (c : Control)
    → c.applied ≡ 0
    → IsRunning (run activations (running c)) ↔ All IsSmall activations
unfolding run
run-IsRunning_iff [] c h = (λ r. tt, λ s. tt)
run-IsRunning_iff ((history, signals) ∷ rest) c h = elim (activate-cases history signals c h) [
  | inl (small, (c', e, h')) ↦
      let ih : IsRunning (run rest (running c')) ↔ All IsSmall rest =
        run-IsRunning_iff rest c' h' in
      rw (e, run) (λ r. (small, ih.0 r), λ a. ih.1 a.1)
  | inr (large, (s, e)) ↦ rw (e, run) (λ r. absurd r, λ a. large a.0)
]
