-- ===== src/Workflows/Dispatch/Quiescence.antt =====
-- When a dispatch region blocks in its wait (workflows/dispatch.py).
use warden_demo_workload.Prelude.{
  ℕ, ◌≡◌, ◌≤◌, ◌<◌, refl, arith, String, true, false, List, [], ◌∷◌, eq_iff, Bool-cases, inl, inr,
  ◌⊎◌, suc, zero,
}
use warden_demo_workload.Common.Models.{Degradation, DispatchState}
use warden_demo_workload.Workflows.Dispatch.{
  Dispatch, status, must_continue, wakes, max_processed, handle_all, Signal, order_ready,
  courier_available, set_degradation, Point, resume, waiting, mark, poll_at, marking, assigning,
  answering, continued, drain, activate, poll, run_from, begin, init, top, Activation, Entity,
  pausing,
}
use warden_demo_workload.Workflows.Dispatch.Points.{
  IsSettled, wakes-false, body-IsSettled, drain-waiting,
}

-- What holds of a region that blocks in its wait: its health is published, and it has not reached
-- its limit on orders, unless continue-as-new is suspended.
pub record IsAtRest (d : Dispatch) : Type 0 where
  pub published : d.published_status ≡ status d.degr
  pub limited : max_processed ≤ d.processed → d.degr.suspend_can ≡ true

settled-IsAtRest : (history : ℕ) (d : Dispatch) → IsSettled history d → IsAtRest d
unfolding must_continue
settled-IsAtRest history d h = record {
  published = h.published;
  limited = λ p. ground (arith, h.stays);
}

handle_all_fields :
    (signals : List Signal) (d : Dispatch)
    → ((handle_all signals d).processed ≡ d.processed)
      × ((handle_all signals d).published_status ≡ d.published_status)
unfolding handle_all
handle_all_fields [] d = (refl, refl)
handle_all_fields (order_ready r ∷ signals) d = handle_all_fields signals _
handle_all_fields (courier_available a ∷ signals) d = handle_all_fields signals _
handle_all_fields (set_degradation g ∷ signals) d = handle_all_fields signals _

degraded_ne_healthy : ¬ (◌≡◌ {A = String} "degraded" "healthy")
degraded_ne_healthy e = ground (arith, eq_iff "degraded" "healthy")

-- The health tells a suspended region from one with no fault.
status_tells :
    (g h : Degradation)
    → g.suspend_can ≡ true
    → status g ≡ status h
    → h.inflate_history ≡ false
    → h.suspend_can ≡ true
unfolding status
status_tells g h on e quiet = elim (Bool-cases h.suspend_can) [
  | inl yes_suspended ↦ yes_suspended
  | inr off ↦ absurd (degraded_ne_healthy (rw (on, quiet, off) at e))
]

-- The wait blocks an activated entity only in a settled state.
blocked-IsSettled :
    (history : ℕ) (old d : Dispatch)
    → IsAtRest old
    → d.processed ≡ old.processed
    → d.published_status ≡ old.published_status
    → wakes history d ≡ false
    → IsSettled history d
unfolding must_continue
blocked-IsSettled history old d rest same stamp h =
    let (drained, published, quiet, short) = wakes-false history d h in
    record {
      drained = drained;
      published = published;
      quiet = quiet;
      stays = ground (arith, short, rest.limited, status_tells old.degr d.degr, rest.published);
    }

poll_at-IsSettled :
    (p : Point) (history : ℕ) (d : Dispatch)
    → (p ≡ waiting → wakes history d ≡ false → IsSettled history d)
    → (poll_at p history d).0.point ≡ waiting
    → IsSettled history (poll_at p history d).0.fields
poll_at-IsSettled waiting history d h e = elim (Bool-cases (wakes history d)) [
  | inl woken ↦ rw woken (body-IsSettled history d (rw woken at e))
  | inr blocked ↦ rw blocked (h refl blocked)
]
poll_at-IsSettled (marking n) history d h e = cc e
poll_at-IsSettled pausing history d h e = cc e
poll_at-IsSettled (assigning o c) history d h e = cc e
poll_at-IsSettled (answering o c) history d h e = cc e
poll_at-IsSettled (continued s ps) history d h e = cc e

-- An await that comes back to the wait was the wait, or has found no reason to continue as new.
resume-stays :
    (p : Point) (history : ℕ) (d : Dispatch)
    → (resume p history d).0.point ≡ waiting
    → ((p ≡ waiting) × ((resume p history d).0.fields ≡ d))
      ⊎ (must_continue history (resume p history d).0.fields ≡ false)
unfolding resume mark drain
resume-stays waiting history d e = inl (refl, refl)
resume-stays (marking zero) history d e = cc e
resume-stays (marking (suc n)) history d e = cc e
resume-stays pausing history d e = inr (body-IsSettled history d e).stays
resume-stays (assigning o c) history d e = cc e
resume-stays (answering o c) history d e =
    let (empty, stays, quiet, same) = drain-waiting d.pending history _ e in inr (rw same stays)
resume-stays (continued s ps) history d e = cc e

stays-IsSettled :
    (history : ℕ) (d : Dispatch)
    → must_continue history d ≡ false
    → wakes history d ≡ false
    → IsSettled history d
stays-IsSettled history d stays h =
    let (drained, published, quiet, short) = wakes-false history d h in
    record { drained = drained; published = published; quiet = quiet; stays = stays }

-- Whenever an activation leaves a region blocked in its wait, nothing is pending, its health is
-- published, no marker is due, and it has no reason to continue as new: neither 200 orders nor a
-- history of more than 1500 events, unless continue-as-new is suspended. If the region was in its
-- wait before, that needs its health published then, and 200 orders only with continue-as-new
-- suspended.
activate-IsSettled :
    (a : Activation) (e : Entity)
    → (e.point ≡ waiting → IsAtRest e.fields)
    → (activate a e).0.point ≡ waiting
    → IsSettled a.history (activate a e).0.fields
unfolding activate poll
activate-IsSettled a e rest =
    let d : Dispatch = handle_all a.signals e.fields in
    let (same, stamp) = handle_all_fields a.signals e.fields in
    elim (Bool-cases a.done) [
      | inr idle ↦ rw idle (
          poll_at-IsSettled e.point a.history d
            (λ w. blocked-IsSettled a.history e.fields d (rest w) same stamp))
      | inl resumed ↦ rw resumed (
          poll_at-IsSettled (resume e.point a.history d).0.point a.history
            (resume e.point a.history d).0.fields
            (λ w h. elim (resume-stays e.point a.history d w) [
              | inl (was, unchanged) ↦
                  rw unchanged (
                    blocked-IsSettled a.history e.fields d (rest was) same stamp
                      (rw unchanged at h))
              | inr stays ↦ stays-IsSettled a.history _ stays h
            ]))
    ]

begin-IsAtRest :
    (state : DispatchState) → state.processed < max_processed → IsAtRest (begin state init).0.fields
unfolding begin top
begin-IsAtRest state few = elim (Bool-cases state.degradation.inflate_history) [
  | inl on ↦ rw on (record { published = refl; limited = λ h. absurd (omega (arith, few, h)) })
  | inr off ↦ rw off (record { published = refl; limited = λ h. absurd (omega (arith, few, h)) })
]

stays-IsAtRest :
    (activations : List Activation) (e : Entity)
    → (e.point ≡ waiting → IsAtRest e.fields)
    → (run_from activations e).0.point ≡ waiting
    → IsAtRest (run_from activations e).0.fields
unfolding run_from
stays-IsAtRest [] e rest = rest
stays-IsAtRest (a ∷ activations) e rest =
    stays-IsAtRest activations (activate a e).0
      (λ w. settled-IsAtRest a.history _ (activate-IsSettled a e rest w))

-- Through any activations from the start of a run that has not counted 200 orders: whenever the
-- region is in its wait, its health is published, and it has not reached 200 orders unless
-- continue-as-new is suspended.
pub run_from-IsAtRest :
    (activations : List Activation) (state : DispatchState)
    → state.processed < max_processed
    → (run_from activations (begin state init).0).0.point ≡ waiting
    → IsAtRest (run_from activations (begin state init).0).0.fields
run_from-IsAtRest activations state few =
    stays-IsAtRest activations (begin state init).0 (λ w. begin-IsAtRest state few)
