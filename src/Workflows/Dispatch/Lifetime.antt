-- ===== src/Workflows/Dispatch/Lifetime.antt =====
-- A dispatch region over its whole life (workflows/dispatch.py): the runs that continue-as-new
-- chains.
use warden_demo_workload.Prelude.{
  ap, ◌∙◌, ◌≡◌, refl, List, [], ◌∷◌, ◌++◌, append-nil, Bool-cases, inl, inr,
}
use warden_demo_workload.Common.Models.{DispatchState}
use warden_demo_workload.Common.SearchAttributes.{Pair}
use warden_demo_workload.Workflows.Dispatch.{
  Dispatch, Point, Entity, waiting, marking, pausing, assigning, answering, continued, Ran,
  activate, Activation, begin, init, carry, top,
}
use warden_demo_workload.Workflows.Dispatch.Queue.{
  answers, arrivals, all_arrivals, queue, Conserves, top-Conserves, activate-Conserves,
  workflow_ids, two-Conserve, then-Conserve,
}
use warden_demo_workload.Workflows.Dispatch.Carry.{IsContinued, activate-IsOver}

abbrev pub next_run : Point → Entity → Ran
next_run (continued state pairs) e = begin state init
next_run waiting e = (e, [])
next_run (marking n) e = (e, [])
next_run pausing e = (e, [])
next_run (assigning o c) e = (e, [])
next_run (answering o c) e = (e, [])

-- What an activation leaves: the run, or the start of the next one when it continued as new.
unfoldable pub step : Activation → Entity → Ran
unfolding activate begin
step a e =
    let (e', commands) = activate a e in
    let (e'', more) = next_run e'.point e' in (e'', commands ++ more)

-- The activations of all the runs of the chain. Each run begins before it handles its signals;
-- Dispatch/Early is about those that it handles before.
unfoldable pub lifetime : List Activation → Entity → Ran
unfolding step
lifetime [] e = (e, [])
lifetime (a ∷ activations) e =
    let (e', commands) = step a e in
    let (e'', more) = lifetime activations e' in (e'', commands ++ more)

top-live : (d : Dispatch) → ¬ IsContinued (top d).0.point
unfolding top
top-live d = elim (Bool-cases d.degr.inflate_history) [
  | inl on ↦ rw on (λ h. h)
  | inr off ↦ rw off (λ h. h)
]

pub begin-Conserves :
    (state : DispatchState)
    → Conserves (workflow_ids state.pending_orders) (begin state init)
      × ¬ IsContinued (begin state init).0.point
unfolding begin
begin-Conserves state = (search top-Conserves, search top-live)

-- The next run queues what the ended one carried.
next_run-Conserves :
    (p : Point) (e : Entity)
    → ((state : DispatchState) (pairs : List Pair)
        → p ≡ continued state pairs
        → state ≡ carry e.fields)
    → e.point ≡ p
    → Conserves (queue e) (next_run p e) × ¬ IsContinued (next_run p e).0.point
unfolding begin carry
next_run-Conserves waiting e h same = (refl, rw same (λ c. c))
next_run-Conserves (marking n) e h same = (refl, rw same (λ c. c))
next_run-Conserves pausing e h same = (refl, rw same (λ c. c))
next_run-Conserves (assigning o c) e h same = (refl, rw same (λ c. c))
next_run-Conserves (answering o c) e h same = (refl, rw same (λ c. c))
next_run-Conserves (continued state pairs) e h same =
    let (kept, live) = begin-Conserves state in
    (kept ∙ ap (λ s. workflow_ids s.pending_orders) (h state pairs refl) ∙ rw same refl, live)

pub step-Conserves :
    (a : Activation) (e : Entity)
    → ¬ IsContinued e.point
    → Conserves (queue e ++ arrivals a.signals) (step a e) × ¬ IsContinued (step a e).0.point
unfolding step
step-Conserves a e live =
    let r : Ran = activate a e in
    let (kept, alive) =
      next_run-Conserves r.0.point r.0
        (λ state pairs same. (activate-IsOver a e live state pairs same).carried) refl in
    (two-Conserve _ r (next_run r.0.point r.0) (activate-Conserves a e) kept, alive)

-- Continue-as-new loses no order and repeats none: over any activations, however often the run is
-- replaced by the next, the workflows that are sent a courier and those still queued are, in order,
-- those that were queued and those that have signalled since. The run at the start is not over, and
-- each run of the chain begins before it handles its signals.
pub lifetime-queue :
    (activations : List Activation) (e : Entity)
    → ¬ IsContinued e.point
    → let (e', commands) = lifetime activations e in
      answers commands ++ queue e' ≡ queue e ++ all_arrivals activations
unfolding lifetime
lifetime-queue [] e live = rw append-nil
lifetime-queue (a ∷ activations) e live =
    let (kept, alive) = step-Conserves a e live in
    then-Conserve a activations e (step a e) (lifetime activations (step a e).0) kept
      (lifetime-queue activations (step a e).0 alive)

-- A chain of runs is never left at a run that is over.
pub lifetime-live :
    (activations : List Activation) (e : Entity)
    → ¬ IsContinued e.point
    → ¬ IsContinued (lifetime activations e).0.point
unfolding lifetime
lifetime-live [] e live = live
lifetime-live (a ∷ activations) e live =
    lifetime-live activations (step a e).0 (step-Conserves a e live).1
