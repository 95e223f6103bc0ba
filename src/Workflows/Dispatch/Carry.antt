-- ===== src/Workflows/Dispatch/Carry.antt =====
-- What a dispatch region carries over continue-as-new (workflows/dispatch.py).
use warden_demo_workload.Prelude.{
  subst, ◌∙◌, ℕ, zero, suc, ◌+◌, ◌-◌, ◌≤◌, ◌<◌, ◌≡◌, ◌≢◌, refl, sym, arith, String, true, false,
  List, [], ◌∷◌, ◌++◌, Bool-cases, inl, inr, length, length-drop, ◌⊎◌, drop, take, subst,
}
use warden_demo_workload.Common.Models.{PendingOrder, DispatchState}
use warden_demo_workload.Common.SearchAttributes.{Pair}
use warden_demo_workload.Workflows.Dispatch.{
  Dispatch, Point, Entity, waiting, marking, pausing, assigning, answering, continued, Ran, status,
  body, wakes, poll, poll_at, activate, Activation, handle_all, resume, top, drain, drain_from,
  finish, take_courier, mark, must_continue, publish_status, carry, stamped, max_processed,
  max_history, begin, init,
}

-- A run that is over: why, and with what.
pub record IsOver (history : ℕ) (d : Dispatch) (state : DispatchState) (pairs : List Pair)
    : Type 0 where
  pub carried : state ≡ carry d
  pub tagged : pairs ≡ stamped d
  pub drained : d.pending ≡ []
  pub allowed : d.degr.suspend_can ≡ false
  pub due : (max_processed ≤ d.processed) ⊎ (max_history < history)

abbrev pub IsContinued : Point → Type 0
IsContinued (continued s ps) = Unit
IsContinued waiting = ⊥
IsContinued (marking n) = ⊥
IsContinued pausing = ⊥
IsContinued (assigning o c) = ⊥
IsContinued (answering o c) = ⊥

-- A piece that ends the run does so for a reason.
abbrev Ends : ℕ → Ran → Type 0
Ends history (e, commands) =
    (state : DispatchState) (pairs : List Pair)
    → e.point ≡ continued state pairs
    → IsOver history e.fields state pairs

top-Ends : (history : ℕ) (d : Dispatch) → Ends history (top d)
unfolding top
top-Ends history d state pairs h = absurd (ground arith)

must_continue-true :
    (history : ℕ) (d : Dispatch)
    → must_continue history d ≡ true
    → (d.degr.suspend_can ≡ false) × ((max_processed ≤ d.processed) ⊎ (max_history < history))
unfolding must_continue
must_continue-true history d h = ground arith

finish-Ends : (history : ℕ) (d : Dispatch) → d.pending ≡ [] → Ends history (finish history d)
unfolding finish
finish-Ends history d empty state pairs h = elim (Bool-cases (must_continue history d)) [
  | inl over ↦
      let e : continued (carry d) (stamped d) ≡ continued state pairs = rw over at h in
      let (allowed, due) = must_continue-true history d over in
      rw over
        (record { carried = cc e; tagged = cc e; drained = empty; allowed = allowed; due = due })
  | inr on ↦ rw on (top-Ends history d state pairs (rw on at h))
]

drain_from-Ends :
    (pending : List PendingOrder) (history : ℕ) (d : Dispatch)
    → d.pending ≡ pending
    → Ends history (drain_from pending history d)
unfolding drain_from
drain_from-Ends [] history d e state pairs h = finish-Ends history d e state pairs h
drain_from-Ends (order ∷ pending) history d e state pairs h = absurd (taken d.couriers _ h)
  where
    taken :
        (couriers : List String) (d : Dispatch)
        → (take_courier order couriers d).0.point ≢ continued state pairs
    taken [] d e = cc e
    taken (c ∷ couriers) d e = cc e

body-Ends : (history : ℕ) (d : Dispatch) → Ends history (body history d)
unfolding body drain
body-Ends history d = drain_from-Ends (publish_status d).0.pending history (publish_status d).0 refl

resume-Ends :
    (p : Point) (history : ℕ) (d : Dispatch) → ¬ IsContinued p → Ends history (resume p history d)
unfolding resume mark drain
resume-Ends waiting history d live s ps h = cc h
resume-Ends (marking zero) history d live s ps h = cc h
resume-Ends (marking (suc n)) history d live s ps h = cc h
resume-Ends pausing history d live s ps h = body-Ends history d s ps h
resume-Ends (assigning o c) history d live s ps h = cc h
resume-Ends (answering o c) history d live s ps h =
    drain_from-Ends d.pending history (record d { processed = d.processed + 1 }) refl s ps h
resume-Ends (continued s ps) history d live t qs h = absurd (live tt)

poll_at-Ends :
    (p : Point) (history : ℕ) (d : Dispatch)
    → Ends history (record { fields = d; point = p }, [])
    → Ends history (poll_at p history d)
poll_at-Ends waiting history d ended = elim (Bool-cases (wakes history d)) [
  | inl woken ↦ rw woken (body-Ends history d)
  | inr blocked ↦ rw blocked ended
]
poll_at-Ends (marking n) history d ended = ended
poll_at-Ends pausing history d ended = ended
poll_at-Ends (assigning o c) history d ended = ended
poll_at-Ends (answering o c) history d ended = ended
poll_at-Ends (continued s ps) history d ended = ended

live-Ends :
    (p : Point) (history : ℕ) (d : Dispatch)
    → ¬ IsContinued p
    → Ends history (record { fields = d; point = p }, [])
live-Ends p history d live s ps h = absurd (live (subst IsContinued (sym h) tt))

-- An activation ends a run that is not over only for a reason: 200 orders or more than 1500 events,
-- with continue-as-new not suspended. Then nothing is pending, and the next run gets the carried
-- state and the stamped attributes.
pub activate-IsOver :
    (a : Activation) (e : Entity)
    → ¬ IsContinued e.point
    → (state : DispatchState) (pairs : List Pair) → (activate a e).0.point ≡ continued state pairs
    → IsOver a.history (activate a e).0.fields state pairs
unfolding activate poll
activate-IsOver a e live =
    let d : Dispatch = handle_all a.signals e.fields in
    let r : Ran = resume e.point a.history d in
    elim (Bool-cases a.done) [
      | inl resumed ↦
          rw resumed
            (poll_at-Ends r.0.point a.history r.0.fields (resume-Ends e.point a.history d live))
      | inr idle ↦ rw idle (poll_at-Ends e.point a.history d (live-Ends e.point a.history d live))
    ]

take-append-drop {ℓ} : {A : Type ℓ} (n : ℕ) (xs : List A) → take n xs ++ drop n xs ≡ xs
take-append-drop zero xs = refl
take-append-drop (suc n) [] = refl
take-append-drop (suc n) (x ∷ xs) = rw (take-append-drop n xs)

-- The next run, from what an ended run of `d` carried: the same region and degradation, no order
-- and none counted, the last couriers, 50 at most, and the health that was stamped.
pub record IsSuccessor (d next : Dispatch) : Type 0 where
  pub region : next.region ≡ d.region
  pub degr : next.degr ≡ d.degr
  pub pending : next.pending ≡ []
  pub processed : next.processed ≡ 0
  pub couriers : take (length d.couriers - 50) d.couriers ++ next.couriers ≡ d.couriers
  pub few : length next.couriers ≤ 50
  pub published : next.published_status ≡ status d.degr

begin_fields :
    (state : DispatchState) (d : Dispatch)
    → let n = (begin state d).0 in
      (n.region ≡ state.region)
      × (n.degr ≡ state.degradation)
      × (n.pending ≡ state.pending_orders)
      × (n.processed ≡ state.processed)
      × (n.couriers ≡ state.available_couriers)
      × (n.published_status ≡ status state.degradation)
unfolding begin top
begin_fields state d = ground arith

carried-IsSuccessor :
    (d : Dispatch) → d.pending ≡ [] → IsSuccessor d (begin (carry d) init).0.fields
unfolding carry
carried-IsSuccessor d empty =
    let (region, degr, pending, processed, couriers, published) = begin_fields (carry d) init in
    record {
      region = region;
      degr = degr;
      pending = pending ∙ empty;
      processed = processed;
      couriers = rw couriers (take-append-drop (length d.couriers - 50) d.couriers);
      few = rw couriers (omega (arith, length-drop (length d.couriers - 50) d.couriers));
      published = published;
    }

-- The run after one that is over has the same region and degradation, no order and none counted, the last couriers,
-- 50 at most, and the health that was stamped; older couriers are dropped.
pub begin-IsSuccessor :
    (history : ℕ) (d : Dispatch) (state : DispatchState) (pairs : List Pair)
    → IsOver history d state pairs
    → IsSuccessor d (begin state init).0.fields
begin-IsSuccessor history d state pairs over = rw over.carried (carried-IsSuccessor d over.drained)
