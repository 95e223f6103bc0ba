-- ===== src/Workers/Registry/CourierCommands.antt =====
-- What `CourierShiftWorkflow` asks of the workers (workflows/courier.py, workers/registry.py).
use warden_demo_workload.Prelude.{ℕ, refl, List, [], ◌∷◌, String, All-append, Bool-cases, inl, inr}
use warden_demo_workload.Common.Constants.{courier_tq}
use warden_demo_workload.Workers.Registry.{AllServed, hosts_activity}
use warden_demo_workload.Workflows.Courier.{
  Courier, Point, Entity, Ran, waiting, accepting, reporting, finished, continued, finish,
  drain_from, drain, body, wakes, resume, poll, poll_at, activate, Activation, handle_all,
}
use warden_demo_workload.Workflows.Courier.Lifetime.{step, lifetime}

abbrev Served : Ran → Type 0
Served (e, commands) = AllServed courier_tq commands

drain_from-Served :
    (assignments : List String) (history : ℕ) (c : Courier)
    → Served (drain_from assignments history c)
unfolding drain_from finish hosts_activity
drain_from-Served [] history c = tt
drain_from-Served (order_id ∷ rest) history c = (refl, tt)

body-Served : (history : ℕ) (c : Courier) → Served (body history c)
unfolding body drain
body-Served history c = elim (Bool-cases c.ended) [
  | inl over ↦ simp over tt
  | inr on ↦ simp on (drain_from-Served c.assignments history c)
]

resume-Served : (p : Point) (history : ℕ) (c : Courier) → Served (resume p history c)
unfolding resume drain
resume-Served waiting history c = tt
resume-Served accepting history c = (refl, tt)
resume-Served reporting history c = drain_from-Served c.assignments history c
resume-Served (finished r) history c = tt
resume-Served (continued s ps) history c = tt

poll_at-Served : (p : Point) (history : ℕ) (c : Courier) → Served (poll_at p history c)
poll_at-Served waiting history c = elim (Bool-cases (wakes history c)) [
  | inl woken ↦ rw woken (body-Served history c)
  | inr blocked ↦ rw blocked tt
]
poll_at-Served accepting history c = tt
poll_at-Served reporting history c = tt
poll_at-Served (finished r) history c = tt
poll_at-Served (continued s ps) history c = tt

activate-Served : (a : Activation) (e : Entity) → Served (activate a e)
unfolding activate poll
activate-Served a e =
    let c : Courier = handle_all a.signals e.fields in
    let r : Ran = resume e.point a.history c in
    elim (Bool-cases a.done) [
      | inl resumed ↦ rw resumed (
          All-append _ r.1 (poll_at r.0.point a.history r.0.fields).1
            (resume-Served e.point a.history c) (poll_at-Served r.0.point a.history r.0.fields))
      | inr idle ↦ rw idle (poll_at-Served e.point a.history c)
    ]

-- From any state on, a shift asks only for what the workers host.
pub lifetime-AllServed :
    (activations : List Activation) (e : Entity) → AllServed courier_tq (lifetime activations e).1
unfolding lifetime step
lifetime-AllServed [] e = tt
lifetime-AllServed (a ∷ activations) e =
    All-append _ (activate a e).1 _ (activate-Served a e) (lifetime-AllServed activations _)
