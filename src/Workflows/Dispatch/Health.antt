-- ===== src/Workflows/Dispatch/Health.antt =====
-- What a dispatch region pays to show its health (workflows/dispatch.py): each upsert is a billable
-- action.
use warden_demo_workload.Prelude.{
  ℕ, zero, suc, ◌+◌, ◌≤◌, ◌≡◌, arith, String, true, List, [], ◌∷◌, ◌++◌, Bool-cases, inl, inr,
  length, length-append, ◌==◌, if◌then◌else◌, eq_refl,
}
use warden_demo_workload.Common.Models.{PendingOrder}
use warden_demo_workload.Temporal.{upserts}
use warden_demo_workload.Temporal.Upserts.{upserts-append}
use warden_demo_workload.Workflows.Dispatch.{
  Dispatch, Point, Entity, waiting, marking, pausing, assigning, answering, continued, Ran, status,
  body, wakes, poll, poll_at, activate, Activation, handle_all, Signal, order_ready,
  courier_available, set_degradation, resume, top, run_from, drain, drain_from, finish,
  take_courier, mark, must_continue,
}

-- 1 while the health is not the published one.
abbrev pub unpublished : Dispatch → ℕ
unpublished d = if status d.degr == d.published_status then 0 else 1

-- The `set_degradation` signals.
abbrev pub flips : List Signal → ℕ
flips [] = 0
flips (set_degradation g ∷ signals) = suc (flips signals)
flips (order_ready r ∷ signals) = flips signals
flips (courier_available a ∷ signals) = flips signals

unpublished_le : (d : Dispatch) → unpublished d ≤ 1
unpublished_le d = ground arith

handle_all-unpublished :
    (signals : List Signal) (d : Dispatch)
    → unpublished (handle_all signals d) ≤ flips signals + unpublished d
unfolding handle_all
handle_all-unpublished [] d = omega arith
handle_all-unpublished (order_ready r ∷ signals) d = handle_all-unpublished signals _
handle_all-unpublished (courier_available a ∷ signals) d = handle_all-unpublished signals _
handle_all-unpublished (set_degradation g ∷ signals) d =
    let d' : Dispatch = record d { degr = g } in
    omega (arith, handle_all-unpublished signals d', unpublished_le d')

-- A piece of the run pays for its upserts by what was unpublished.
abbrev Costs : ℕ → Ran → Type 0
Costs n (e, commands) = length (upserts commands) + unpublished e.fields ≤ n

top-Costs : (d : Dispatch) → Costs (unpublished d) (top d)
unfolding top
top-Costs d = elim (Bool-cases d.degr.inflate_history) [
  | inl on ↦ rw on (omega arith)
  | inr off ↦ rw off (omega arith)
]

finish-Costs : (history : ℕ) (d : Dispatch) → Costs (unpublished d) (finish history d)
unfolding finish
finish-Costs history d = elim (Bool-cases (must_continue history d)) [
  | inl over ↦ rw over (omega arith)
  | inr on ↦ rw on (top-Costs d)
]

take_courier-Costs :
    (order : PendingOrder) (couriers : List String) (d : Dispatch)
    → Costs (unpublished d) (take_courier order couriers d)
take_courier-Costs order [] d = omega arith
take_courier-Costs order (c ∷ couriers) d = omega arith

drain_from-Costs :
    (pending : List PendingOrder) (history : ℕ) (d : Dispatch)
    → Costs (unpublished d) (drain_from pending history d)
unfolding drain_from
drain_from-Costs [] history d = finish-Costs history d
drain_from-Costs (order ∷ pending) history d = take_courier-Costs order d.couriers _

status_same : (d : Dispatch) → (status d.degr == status d.degr) ≡ true
status_same d = eq_refl (status d.degr)

body-Costs : (history : ℕ) (d : Dispatch) → Costs (unpublished d) (body history d)
unfolding body drain
body-Costs history d = elim (Bool-cases (status d.degr == d.published_status)) [
  | inl same ↦ rw same (rw same at (drain_from-Costs d.pending history d))
  | inr flipped ↦
      let d' : Dispatch = record d { published_status = status d.degr } in
      let clean : unpublished d' ≡ 0 = rw (status_same d) in
      rw flipped (omega (arith, drain_from-Costs d.pending history d', clean))
]

resume-Costs : (p : Point) (history : ℕ) (d : Dispatch) → Costs (unpublished d) (resume p history d)
unfolding resume mark
resume-Costs waiting history d = omega arith
resume-Costs (marking zero) history d = omega arith
resume-Costs (marking (suc n)) history d = omega arith
resume-Costs pausing history d = body-Costs history d
resume-Costs (assigning o c) history d = omega arith
resume-Costs (answering o c) history d = drain_from-Costs d.pending history _
resume-Costs (continued s ps) history d = omega arith

poll_at-Costs :
    (p : Point) (history : ℕ) (d : Dispatch) → Costs (unpublished d) (poll_at p history d)
poll_at-Costs waiting history d = elim (Bool-cases (wakes history d)) [
  | inl woken ↦ rw woken (body-Costs history d)
  | inr blocked ↦ rw blocked (omega arith)
]
poll_at-Costs (marking n) history d = omega arith
poll_at-Costs pausing history d = omega arith
poll_at-Costs (assigning o c) history d = omega arith
poll_at-Costs (answering o c) history d = omega arith
poll_at-Costs (continued s ps) history d = omega arith

two-Cost :
    (n : ℕ) (first second : Ran)
    → Costs n first
    → Costs (unpublished first.0.fields) second
    → Costs n (second.0, first.1 ++ second.1)
two-Cost n first second h k =
    rw (upserts-append first.1 second.1)
      (omega (arith, length-append (upserts first.1) (upserts second.1)))

activate-Costs :
    (a : Activation) (e : Entity) → Costs (flips a.signals + unpublished e.fields) (activate a e)
unfolding activate poll
activate-Costs a e =
    let d : Dispatch = handle_all a.signals e.fields in
    let r : Ran = resume e.point a.history d in
    elim (Bool-cases a.done) [
      | inl resumed ↦ rw resumed (
          omega (
            arith,
            handle_all-unpublished a.signals e.fields,
            two-Cost (unpublished d) r (poll_at r.0.point a.history r.0.fields)
                (resume-Costs e.point a.history d) (poll_at-Costs r.0.point a.history r.0.fields),
          ))
      | inr idle ↦ rw idle (
          omega
            (arith, handle_all-unpublished a.signals e.fields, poll_at-Costs e.point a.history d))
    ]

abbrev pub all_flips : List Activation → ℕ
all_flips [] = 0
all_flips (a ∷ activations) = flips a.signals + all_flips activations

-- Through any activations, a region pays at most one action for each degradation signal, and one
-- for a health that was unpublished before; a health that is still unpublished is not paid for yet.
pub run_from-upserts :
    (activations : List Activation) (e : Entity)
    → let (e', commands) = run_from activations e in
      length (upserts commands) + unpublished e'.fields
      ≤ all_flips activations + unpublished e.fields
unfolding run_from
run_from-upserts [] e = omega arith
run_from-upserts (a ∷ activations) e =
    let (e', c) = activate a e in
    let (e'', c') = run_from activations e' in
    rw (upserts-append c c') (
      omega (
        arith,
        length-append (upserts c) (upserts c'),
        activate-Costs a e,
        run_from-upserts activations e',
      ))
