-- ===== src/Workflows/Dispatch/Flags.antt =====
-- The degradation that a region runs by (workflows/dispatch.py).
use warden_demo_workload.Prelude.{
  zero, suc, ◌≡◌, refl, ap, sym, ◌∙◌, ℕ, String, List, [], ◌∷◌, ◌++◌, Bool-cases, inl, inr, ◌==◌,
}
use warden_demo_workload.Common.Models.{Degradation, DispatchState, PendingOrder}
use warden_demo_workload.Common.SearchAttributes.{Pair}
use warden_demo_workload.Workflows.Dispatch.{
  status, waiting, marking, pausing, assigning, answering, continued, Dispatch, Point, Entity, Ran,
  body, wakes, poll, poll_at, activate, Activation, handle_all, Signal, order_ready,
  courier_available, set_degradation, resume, top, drain, drain_from, finish, take_courier, mark,
  must_continue, publish_status, begin, carry, init,
}
use warden_demo_workload.Workflows.Dispatch.Carry.{IsContinued, activate-IsOver}
use warden_demo_workload.Workflows.Dispatch.Lifetime.{next_run, step, step-Conserves, lifetime}

-- The degradations that the signals set, in order.
abbrev pub degradations : List Signal → List Degradation
degradations [] = []
degradations (set_degradation g ∷ signals) = g ∷ degradations signals
degradations (order_ready r ∷ signals) = degradations signals
degradations (courier_available a ∷ signals) = degradations signals

abbrev pub all_degradations : List Activation → List Degradation
all_degradations [] = []
all_degradations (a ∷ activations) = degradations a.signals ++ all_degradations activations

-- The last of them, or the one at the start.
abbrev pub last_of : List Degradation → Degradation → Degradation
last_of [] g = g
last_of (g ∷ gs) old = last_of gs g

pub last_of-append :
    (xs ys : List Degradation) (g : Degradation) → last_of (xs ++ ys) g ≡ last_of ys (last_of xs g)
last_of-append [] ys g = refl
last_of-append (x ∷ xs) ys g = last_of-append xs ys x

handle_all-degr :
    (signals : List Signal) (d : Dispatch)
    → (handle_all signals d).degr ≡ last_of (degradations signals) d.degr
unfolding handle_all
handle_all-degr [] d = refl
handle_all-degr (set_degradation g ∷ signals) d = handle_all-degr signals _
handle_all-degr (order_ready r ∷ signals) d = handle_all-degr signals _
handle_all-degr (courier_available a ∷ signals) d = handle_all-degr signals _

-- A piece of the run leaves the degradation as it is.
abbrev Keeps : Dispatch → Ran → Type 0
Keeps d (e, commands) = e.fields.degr ≡ d.degr

top-Keeps : (d : Dispatch) → Keeps d (top d)
unfolding top mark
top-Keeps d = elim (Bool-cases d.degr.inflate_history) [
  | inl on ↦ rw on refl
  | inr off ↦ rw off refl
]

finish-Keeps : (history : ℕ) (d : Dispatch) → Keeps d (finish history d)
unfolding finish
finish-Keeps history d = elim (Bool-cases (must_continue history d)) [
  | inl over ↦ rw over refl
  | inr on ↦ rw on (top-Keeps d)
]

drain_from-Keeps :
    (pending : List PendingOrder) (history : ℕ) (d : Dispatch)
    → Keeps d (drain_from pending history d)
unfolding drain_from
drain_from-Keeps [] history d = finish-Keeps history d
drain_from-Keeps (order ∷ pending) history d = taken d.couriers (record d { pending = pending })
  where
    taken : (couriers : List String) (d : Dispatch) → Keeps d (take_courier order couriers d)
    taken [] d = refl
    taken (c ∷ couriers) d = refl

body-Keeps : (history : ℕ) (d : Dispatch) → Keeps d (body history d)
unfolding body drain publish_status
body-Keeps history d = elim (Bool-cases (status d.degr == d.published_status)) [
  | inl same ↦ rw same (drain_from-Keeps d.pending history d)
  | inr flipped ↦ rw flipped (drain_from-Keeps d.pending history _)
]

resume-Keeps : (p : Point) (history : ℕ) (d : Dispatch) → Keeps d (resume p history d)
unfolding resume mark drain
resume-Keeps waiting history d = refl
resume-Keeps (marking zero) history d = refl
resume-Keeps (marking (suc n)) history d = refl
resume-Keeps pausing history d = body-Keeps history d
resume-Keeps (assigning o c) history d = refl
resume-Keeps (answering o c) history d = drain_from-Keeps d.pending history _
resume-Keeps (continued s ps) history d = refl

poll_at-Keeps : (p : Point) (history : ℕ) (d : Dispatch) → Keeps d (poll_at p history d)
poll_at-Keeps waiting history d = elim (Bool-cases (wakes history d)) [
  | inl woken ↦ rw woken (body-Keeps history d)
  | inr blocked ↦ rw blocked refl
]
poll_at-Keeps (marking n) history d = refl
poll_at-Keeps pausing history d = refl
poll_at-Keeps (assigning o c) history d = refl
poll_at-Keeps (answering o c) history d = refl
poll_at-Keeps (continued s ps) history d = refl

activate-degr :
    (a : Activation) (e : Entity)
    → (activate a e).0.fields.degr ≡ last_of (degradations a.signals) e.fields.degr
unfolding activate poll
activate-degr a e =
    let d : Dispatch = handle_all a.signals e.fields in
    let r : Ran = resume e.point a.history d in
    elim (Bool-cases a.done) [
      | inl done ↦ rw done (
          poll_at-Keeps r.0.point a.history r.0.fields
          ∙ resume-Keeps e.point a.history d
          ∙ handle_all-degr a.signals e.fields)
      | inr idle ↦ rw idle (poll_at-Keeps e.point a.history d ∙ handle_all-degr a.signals e.fields)
    ]

pub begin-degr : (state : DispatchState) → (begin state init).0.fields.degr ≡ state.degradation
unfolding begin
begin-degr state = search top-Keeps

next_run-Keeps :
    (p : Point) (e : Entity)
    → ((state : DispatchState) (pairs : List Pair)
        → p ≡ continued state pairs
        → state ≡ carry e.fields)
    → Keeps e.fields (next_run p e)
unfolding carry
next_run-Keeps (continued state pairs) e h =
    begin-degr state ∙ ap (λ s. s.degradation) (h state pairs refl)
next_run-Keeps waiting e h = refl
next_run-Keeps (marking n) e h = refl
next_run-Keeps pausing e h = refl
next_run-Keeps (assigning o c) e h = refl
next_run-Keeps (answering o c) e h = refl

-- Through any activations and any number of runs, each of which begins before it handles its
-- signals, a region runs by the degradation of the last signal, or, without one, by that at the
-- start.
pub lifetime-degr :
    (activations : List Activation) (e : Entity)
    → ¬ IsContinued e.point
    → (lifetime activations e).0.fields.degr ≡ last_of (all_degradations activations) e.fields.degr
unfolding lifetime step
lifetime-degr [] e live = refl
lifetime-degr (a ∷ activations) e live =
    let r : Ran = activate a e in
    let kept : (next_run r.0.point r.0).0.fields.degr ≡ r.0.fields.degr =
      next_run-Keeps r.0.point r.0
        (λ state pairs same. (activate-IsOver a e live state pairs same).carried) in
    lifetime-degr activations (next_run r.0.point r.0).0 (step-Conserves a e live).1
    ∙ ap (last_of (all_degradations activations)) (kept ∙ activate-degr a e)
    ∙ sym (last_of-append (degradations a.signals) (all_degradations activations) e.fields.degr)
