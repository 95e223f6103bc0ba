-- ===== src/Workflows/Dispatch/Queue.antt =====
-- The orders of a dispatch region as a queue (workflows/dispatch.py).
use mathlib.Core.List.{map-append}
use warden_demo_workload.Prelude.{
  sym, subst, ◌==◌, ap, ◌∙◌, ℕ, zero, suc, ◌≡◌, refl, String, List, [], ◌∷◌, ◌++◌, map, append-nil,
  append_assoc, Bool-cases, inl, inr,
}
use warden_demo_workload.Common.Models.{PendingOrder}
use warden_demo_workload.Temporal.{
  Command, activity, local_activity, timer, wait_until, signal, upsert, child, courier_assigned,
  SignalCall, order_ready, courier_available,
}
use warden_demo_workload.Workflows.Dispatch.{
  status, waiting, marking, pausing, assigning, answering, continued, Dispatch, Point, Entity, Ran,
  body, wakes, poll, poll_at, activate, Activation, handle_all, Signal, resume, top, run_from,
  drain, drain_from, finish, take_courier, mark, must_continue,
}

abbrev pub workflow_ids : List PendingOrder → List String
workflow_ids = map (λ o. o.order_wf_id)

-- The order that is taken and not yet answered.
abbrev pub in_flight : Point → List String
in_flight (assigning o c) = o.order_wf_id ∷ []
in_flight waiting = []
in_flight (marking n) = []
in_flight pausing = []
in_flight (answering o c) = []
in_flight (continued s ps) = []

-- The orders that a region has yet to answer, oldest first, by their workflows.
abbrev pub queue : Entity → List String
queue e = in_flight e.point ++ workflow_ids e.pending

-- The workflows that the commands send a courier to.
abbrev pub answered_by : SignalCall → String → List String
answered_by (courier_assigned c) id = id ∷ []
answered_by (order_ready r) id = []
answered_by (courier_available a) id = []

abbrev pub answers : List Command → List String
answers [] = []
answers (signal id call ∷ log) = answered_by call id ++ answers log
answers (upsert pairs ∷ log) = answers log
answers (activity a xs ∷ log) = answers log
answers (local_activity a xs ∷ log) = answers log
answers (timer n ∷ log) = answers log
answers (wait_until n ∷ log) = answers log
answers (child c ∷ log) = answers log

-- The workflows that signal that an order is ready.
abbrev pub arrivals : List Signal → List String
arrivals [] = []
arrivals (Signal.order_ready r ∷ signals) = r.order_wf_id ∷ arrivals signals
arrivals (Signal.courier_available a ∷ signals) = arrivals signals
arrivals (Signal.set_degradation g ∷ signals) = arrivals signals

pub answers-append : (a b : List Command) → answers (a ++ b) ≡ answers a ++ answers b
answers-append [] b = refl
answers-append (signal id (courier_assigned c) ∷ a) b = ap (λ u. id ∷ u) (answers-append a b)
answers-append (signal id (order_ready r) ∷ a) b = answers-append a b
answers-append (signal id (courier_available r) ∷ a) b = answers-append a b
answers-append (upsert pairs ∷ a) b = answers-append a b
answers-append (activity n xs ∷ a) b = answers-append a b
answers-append (local_activity n xs ∷ a) b = answers-append a b
answers-append (timer n ∷ a) b = answers-append a b
answers-append (wait_until n ∷ a) b = answers-append a b
answers-append (child c ∷ a) b = answers-append a b

handle_all-queue :
    (signals : List Signal) (d : Dispatch)
    → workflow_ids (handle_all signals d).pending ≡ workflow_ids d.pending ++ arrivals signals
unfolding handle_all
handle_all-queue [] d = rw append-nil
handle_all-queue (Signal.order_ready r ∷ signals) d =
    handle_all-queue signals _ ∙ simp (map-append, append_assoc)
handle_all-queue (Signal.courier_available a ∷ signals) d = handle_all-queue signals _
handle_all-queue (Signal.set_degradation g ∷ signals) d = handle_all-queue signals _

-- What a piece of the run does to the orders `left`: it answers some, and keeps the rest queued.
abbrev pub Conserves : List String → Ran → Type 0
Conserves left (e, commands) = answers commands ++ queue e ≡ left

pub top-Conserves : (d : Dispatch) → Conserves (workflow_ids d.pending) (top d)
unfolding top
top-Conserves d = elim (Bool-cases d.degr.inflate_history) [ inl on ↦ rw on | inr off ↦ rw off ]

finish-Conserves :
    (history : ℕ) (d : Dispatch) → Conserves (workflow_ids d.pending) (finish history d)
unfolding finish
finish-Conserves history d = elim (Bool-cases (must_continue history d)) [
  | inl over ↦ rw over
  | inr on ↦ rw on (top-Conserves d)
]

drain_from-Conserves :
    (pending : List PendingOrder) (history : ℕ) (d : Dispatch)
    → d.pending ≡ pending
    → Conserves (workflow_ids pending) (drain_from pending history d)
unfolding drain_from
drain_from-Conserves [] history d e =
    subst (λ p. Conserves (workflow_ids p) (finish history d)) e (finish-Conserves history d)
drain_from-Conserves (order ∷ pending) history d e = taken d.couriers
  where
    taken :
        (couriers : List String)
        → Conserves
            (workflow_ids (order ∷ pending))
            (take_courier order couriers (record d { pending = pending }))
    taken [] = refl
    taken (c ∷ couriers) = refl

body-Conserves : (history : ℕ) (d : Dispatch) → Conserves (workflow_ids d.pending) (body history d)
unfolding body drain
body-Conserves history d = elim (Bool-cases (status d.degr == d.published_status)) [
  | inl same ↦ rw same (drain_from-Conserves d.pending history d refl)
  | inr flipped ↦ rw flipped (drain_from-Conserves d.pending history _ refl)
]

resume-Conserves :
    (p : Point) (history : ℕ) (d : Dispatch)
    → Conserves (in_flight p ++ workflow_ids d.pending) (resume p history d)
unfolding resume mark
resume-Conserves waiting history d = refl
resume-Conserves (marking zero) history d = refl
resume-Conserves (marking (suc n)) history d = refl
resume-Conserves pausing history d = body-Conserves history d
resume-Conserves (assigning o c) history d = refl
resume-Conserves (answering o c) history d = drain_from-Conserves d.pending history _ refl
resume-Conserves (continued s ps) history d = refl

poll_at-Conserves :
    (p : Point) (history : ℕ) (d : Dispatch)
    → Conserves (in_flight p ++ workflow_ids d.pending) (poll_at p history d)
poll_at-Conserves waiting history d = elim (Bool-cases (wakes history d)) [
  | inl woken ↦ rw woken (body-Conserves history d)
  | inr blocked ↦ rw blocked
]
poll_at-Conserves (marking n) history d = refl
poll_at-Conserves pausing history d = refl
poll_at-Conserves (assigning o c) history d = refl
poll_at-Conserves (answering o c) history d = refl
poll_at-Conserves (continued s ps) history d = refl

-- Two pieces of a run, one after the other.
pub two-Conserve :
    (left : List String) (first second : Ran)
    → Conserves left first
    → Conserves (queue first.0) second
    → Conserves left (second.0, first.1 ++ second.1)
two-Conserve left first second h k =
    rw (answers-append first.1 second.1, append_assoc) (ap (λ q. answers first.1 ++ q) k ∙ h)

pub activate-Conserves :
    (a : Activation) (e : Entity) → Conserves (queue e ++ arrivals a.signals) (activate a e)
unfolding activate poll
activate-Conserves a e =
    let d : Dispatch = handle_all a.signals e.fields in
    let r : Ran = resume e.point a.history d in
    let arrived : in_flight e.point ++ workflow_ids d.pending ≡ queue e ++ arrivals a.signals =
      rw (handle_all-queue a.signals e.fields, append_assoc) in
    rw (← arrived) (elim (Bool-cases a.done) [
      | inl resumed ↦ rw resumed (
          two-Conserve _ r (poll_at r.0.point a.history r.0.fields)
            (resume-Conserves e.point a.history d)
            (poll_at-Conserves r.0.point a.history r.0.fields))
      | inr idle ↦ rw idle (poll_at-Conserves e.point a.history d)
    ])

abbrev pub all_arrivals : List Activation → List String
all_arrivals [] = []
all_arrivals (a ∷ activations) = arrivals a.signals ++ all_arrivals activations

-- The first activation of some, and the ones that follow.
pub then-Conserve :
    (a : Activation) (activations : List Activation) (e : Entity) (first second : Ran)
    → Conserves (queue e ++ arrivals a.signals) first
    → Conserves (queue first.0 ++ all_arrivals activations) second
    → Conserves (queue e ++ all_arrivals (a ∷ activations)) (second.0, first.1 ++ second.1)
then-Conserve a activations e (e', c) (e'', c') h k =
    let later : List String = all_arrivals activations in
    rw (answers-append c c', append_assoc)
      (ap (λ q. answers c ++ q) k
        ∙ sym (append_assoc (answers c) (queue e') later)
        ∙ ap (λ q. q ++ later) h
        ∙ append_assoc (queue e) (arrivals a.signals) later)

-- First in, first out, each once: through any activations, the workflows that are answered and
-- those still queued are, in order, those that were queued and those that have signalled since.
pub run_from-queue :
    (activations : List Activation) (e : Entity)
    → let (e', commands) = run_from activations e in
      answers commands ++ queue e' ≡ queue e ++ all_arrivals activations
unfolding run_from
run_from-queue [] e = rw append-nil
run_from-queue (a ∷ activations) e =
    then-Conserve a activations e (activate a e) (run_from activations (activate a e).0)
      (activate-Conserves a e) (run_from-queue activations (activate a e).0)
