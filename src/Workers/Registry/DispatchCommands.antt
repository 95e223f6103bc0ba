-- ===== src/Workers/Registry/DispatchCommands.antt =====
-- What `DispatchWorkflow` asks of the workers (workflows/dispatch.py, workers/registry.py).
use warden_demo_workload.Prelude.{
  ℕ, zero, suc, refl, List, [], ◌∷◌, ◌++◌, String, All-append, Bool-cases, inl, inr, ◌==◌,
}
use warden_demo_workload.Common.Constants.{dispatch_tq}
use warden_demo_workload.Common.Models.{DispatchState, PendingOrder}
use warden_demo_workload.Workers.Registry.{AllServed, hosts_activity}
use warden_demo_workload.Workflows.Dispatch.{
  Dispatch, Point, Entity, Ran, waiting, marking, pausing, assigning, answering, continued, mark,
  top, finish, must_continue, take_courier, drain_from, drain, body, status, wakes, resume, poll,
  poll_at, activate, Activation, handle_all, begin, init,
}
use warden_demo_workload.Workflows.Dispatch.Lifetime.{next_run, step, lifetime}

abbrev Served : Ran → Type 0
Served (e, commands) = AllServed dispatch_tq commands

-- Two pieces of a run, one after the other.
two-Served :
    (first second : Ran) → Served first → Served second → Served (second.0, first.1 ++ second.1)
two-Served first second h k = All-append _ first.1 second.1 h k

mark-Served : (left : ℕ) (d : Dispatch) → Served (mark left d)
unfolding mark hosts_activity
mark-Served left d = (refl, tt)

top-Served : (d : Dispatch) → Served (top d)
unfolding top
top-Served d = elim (Bool-cases d.degr.inflate_history) [
  | inl on ↦ rw on (search mark-Served)
  | inr off ↦ rw off tt
]

finish-Served : (history : ℕ) (d : Dispatch) → Served (finish history d)
unfolding finish
finish-Served history d = elim (Bool-cases (must_continue history d)) [
  | inl over ↦ rw over tt
  | inr on ↦ rw on (top-Served d)
]

take_courier-Served :
    (order : PendingOrder) (couriers : List String) (d : Dispatch)
    → Served (take_courier order couriers d)
unfolding hosts_activity
take_courier-Served order [] d = (refl, tt)
take_courier-Served order (c ∷ couriers) d = (refl, tt)

drain_from-Served :
    (pending : List PendingOrder) (history : ℕ) (d : Dispatch)
    → Served (drain_from pending history d)
unfolding drain_from
drain_from-Served [] history d = finish-Served history d
drain_from-Served (order ∷ pending) history d = take_courier-Served order d.couriers _

body-Served : (history : ℕ) (d : Dispatch) → Served (body history d)
unfolding body drain
body-Served history d = elim (Bool-cases (status d.degr == d.published_status)) [
  | inl same ↦ rw same (drain_from-Served d.pending history d)
  | inr flipped ↦ rw flipped (refl, drain_from-Served d.pending history _)
]

resume-Served : (p : Point) (history : ℕ) (d : Dispatch) → Served (resume p history d)
unfolding resume drain
resume-Served waiting history d = tt
resume-Served (marking zero) history d = (refl, tt)
resume-Served (marking (suc n)) history d = mark-Served n d
resume-Served pausing history d = body-Served history d
resume-Served (assigning o c) history d = (refl, tt)
resume-Served (answering o c) history d = drain_from-Served d.pending history _
resume-Served (continued s ps) history d = tt

poll_at-Served : (p : Point) (history : ℕ) (d : Dispatch) → Served (poll_at p history d)
poll_at-Served waiting history d = elim (Bool-cases (wakes history d)) [
  | inl woken ↦ rw woken (body-Served history d)
  | inr blocked ↦ rw blocked tt
]
poll_at-Served (marking n) history d = tt
poll_at-Served pausing history d = tt
poll_at-Served (assigning o c) history d = tt
poll_at-Served (answering o c) history d = tt
poll_at-Served (continued s ps) history d = tt

activate-Served : (a : Activation) (e : Entity) → Served (activate a e)
unfolding activate poll
activate-Served a e =
    let d : Dispatch = handle_all a.signals e.fields in
    let r : Ran = resume e.point a.history d in
    elim (Bool-cases a.done) [
      | inl resumed ↦ rw resumed (
          two-Served r (poll_at r.0.point a.history r.0.fields) (resume-Served e.point a.history d)
            (poll_at-Served r.0.point a.history r.0.fields))
      | inr idle ↦ rw idle (poll_at-Served e.point a.history d)
    ]

begin-Served : (state : DispatchState) → Served (begin state init)
unfolding begin
begin-Served state = search top-Served

next_run-Served : (p : Point) (e : Entity) → Served (next_run p e)
next_run-Served waiting e = tt
next_run-Served (marking n) e = tt
next_run-Served pausing e = tt
next_run-Served (assigning o c) e = tt
next_run-Served (answering o c) e = tt
next_run-Served (continued state pairs) e = begin-Served state

lifetime-Served : (activations : List Activation) (e : Entity) → Served (lifetime activations e)
unfolding lifetime step
lifetime-Served [] e = tt
lifetime-Served (a ∷ activations) e =
    let r : Ran = activate a e in
    let r' : Ran = next_run r.0.point r.0 in
    two-Served (r'.0, r.1 ++ r'.1) (lifetime activations r'.0)
      (two-Served r r' (activate-Served a e) (next_run-Served r.0.point r.0))
      (lifetime-Served activations r'.0)

-- From its first state on, a region asks only for what the workers host.
pub begin-lifetime-AllServed :
    (state : DispatchState) (activations : List Activation)
    → AllServed dispatch_tq (begin state init).1
      × AllServed dispatch_tq (lifetime activations (begin state init).0).1
begin-lifetime-AllServed state activations =
    (begin-Served state, lifetime-Served activations (begin state init).0)
