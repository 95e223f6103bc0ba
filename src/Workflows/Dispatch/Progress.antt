-- ===== src/Workflows/Dispatch/Progress.antt =====
-- A dispatch region gets to the end of its queue (workflows/dispatch.py).
use warden_demo_workload.Prelude.{
  ℕ, zero, suc, ◌+◌, ◌*◌, ◌<◌, ◌≡◌, ◌≢◌, refl, ap, String, true, List, [], ◌∷◌, ◌++◌, length,
  Bool-cases, inl, inr, arith, ◌==◌,
}
use warden_demo_workload.Common.Models.{PendingOrder}
use warden_demo_workload.Workflows.Dispatch.{
  Dispatch, Point, Entity, waiting, marking, pausing, assigning, answering, continued, body, drain,
  drain_from, take_courier, status, wakes, resume, poll_at, Activation, mark, activate, poll,
}
use warden_demo_workload.Workflows.Dispatch.Queue.{in_flight, workflow_ids, queue}
use warden_demo_workload.Workflows.Dispatch.Lifetime.{next_run, step}
use warden_demo_workload.Workflows.Dispatch.Carry.{IsContinued}

-- An activation in which the await is done and no signal arrives.
abbrev pub idle : ℕ → Activation
idle history = record { history = history; signals = []; done = true }

-- The awaits until the order in hand is answered, or the markers are through.
abbrev pub delay : Point → ℕ
delay waiting = 0
delay pausing = 0
delay (answering o c) = 0
delay (assigning o c) = 1
delay (marking n) = n + 1
delay (continued s ps) = 0

-- The awaits until every order is answered: two for each.
abbrev pub cost : Entity → ℕ
cost e = delay e.point + 2 * length e.fields.pending

-- An order is in hand.
abbrev IsAssigning : Point → Type 0
IsAssigning (assigning o c) = Unit
IsAssigning waiting = ⊥
IsAssigning (marking n) = ⊥
IsAssigning pausing = ⊥
IsAssigning (answering o c) = ⊥
IsAssigning (continued s ps) = ⊥

-- The oldest order is taken in hand.
abbrev Takes : List PendingOrder → Entity → Type 0
Takes rest e = (e.fields.pending ≡ rest) × IsAssigning e.point

drain_from-Takes :
    (o : PendingOrder) (rest : List PendingOrder) (history : ℕ) (d : Dispatch)
    → Takes rest (drain_from (o ∷ rest) history d).0
unfolding drain_from
drain_from-Takes o rest history d = taken d.couriers
  where
    taken :
        (couriers : List String)
        → Takes rest (take_courier o couriers (record d { pending = rest })).0
    taken [] = (refl, tt)
    taken (c ∷ couriers) = (refl, tt)

body-Takes :
    (o : PendingOrder) (rest : List PendingOrder) (history : ℕ) (d : Dispatch)
    → d.pending ≡ o ∷ rest
    → Takes rest (body history d).0
unfolding body drain
body-Takes o rest history d e = elim (Bool-cases (status d.degr == d.published_status)) [
  | inl same ↦ rw same (simp e (drain_from-Takes o rest history d))
  | inr flipped ↦
      rw flipped
        (simp e (drain_from-Takes o rest history (record d { published_status = status d.degr })))
]

-- Nothing is left to do, or what is left has become less.
pub record Advances (before : ℕ) (e : Entity) : Type 0 where
  pub less : cost e < before
  pub live : ¬ IsContinued e.point

delay-assigning : (p : Point) → IsAssigning p → delay p ≡ 1
delay-assigning (assigning o c) h = refl
delay-assigning waiting h = absurd h
delay-assigning (marking n) h = absurd h
delay-assigning pausing h = absurd h
delay-assigning (answering o c) h = absurd h
delay-assigning (continued s ps) h = absurd h

live-assigning : (p : Point) → IsAssigning p → ¬ IsContinued p
live-assigning (assigning o c) h k = k
live-assigning waiting h k = h
live-assigning (marking n) h k = h
live-assigning pausing h k = h
live-assigning (answering o c) h k = h
live-assigning (continued s ps) h k = h

Takes-Advances :
    (rest : List PendingOrder) (e : Entity) (before : ℕ)
    → Takes rest e
    → 1 + 2 * length rest < before
    → Advances before e
Takes-Advances rest e before (left, taken) h = record {
  less = omega (arith, h, delay-assigning e.point taken, ap length left);
  live = live-assigning e.point taken;
}

poll_at-assigning :
    (p : Point) (history : ℕ) (d : Dispatch)
    → IsAssigning p
    → (poll_at p history d).0 ≡ record { fields = d; point = p }
poll_at-assigning (assigning o c) history d h = refl
poll_at-assigning waiting history d h = absurd h
poll_at-assigning (marking n) history d h = absurd h
poll_at-assigning pausing history d h = absurd h
poll_at-assigning (answering o c) history d h = absurd h
poll_at-assigning (continued s ps) history d h = absurd h

-- A piece of the run that takes an order in hand, and the test of the wait after it.
taken-Advances :
    (rest : List PendingOrder) (history : ℕ) (e : Entity) (before : ℕ)
    → Takes rest e
    → 1 + 2 * length rest < before
    → Advances before (poll_at e.point history e.fields).0
taken-Advances rest history e before takes h =
    rw (poll_at-assigning e.point history e.fields takes.1) (Takes-Advances rest e before takes h)

-- With an order in the queue, every await that is done leaves less to do.
resume-Advances :
    (p : Point) (pending : List PendingOrder) (history : ℕ) (d : Dispatch)
    → ¬ IsContinued p
    → d.pending ≡ pending
    → in_flight p ++ workflow_ids pending ≢ []
    → let r = (resume p history d).0 in
      Advances (delay p + 2 * length pending) (poll_at r.point history r.fields).0
unfolding resume mark drain wakes
resume-Advances waiting [] history d live e h = absurd (h refl)
resume-Advances waiting (o ∷ rest) history d live e h =
    let woken : wakes history d ≡ true = ground (arith, e) in
    rw woken
      (Takes-Advances rest (body history d).0 _ (body-Takes o rest history d e) (omega arith))
resume-Advances (marking zero) pending history d live e h = record {
  less = rw e (omega arith);
  live = λ c. c;
}
resume-Advances (marking (suc n)) pending history d live e h = record {
  less = rw e (omega arith);
  live = λ c. c;
}
resume-Advances pausing [] history d live e h = absurd (h refl)
resume-Advances pausing (o ∷ rest) history d live e h =
    taken-Advances rest history (body history d).0 _ (body-Takes o rest history d e) (omega arith)
resume-Advances (assigning o c) pending history d live e h = record {
  less = rw e (omega arith);
  live = λ c. c;
}
resume-Advances (answering o c) [] history d live e h = absurd (h refl)
resume-Advances (answering o c) (o' ∷ rest) history d live e h = simp e (
    taken-Advances rest history _ _
      (drain_from-Takes o' rest history (record d { processed = d.processed + 1 })) (omega arith))
resume-Advances (continued s ps) pending history d live e h = absurd (live tt)

next_run-live : (p : Point) (e : Entity) → ¬ IsContinued p → next_run p e ≡ (e, [])
next_run-live waiting e live = refl
next_run-live (marking n) e live = refl
next_run-live pausing e live = refl
next_run-live (assigning o c) e live = refl
next_run-live (answering o c) e live = refl
next_run-live (continued s ps) e live = absurd (live tt)

pub step-Advances :
    (history : ℕ) (e : Entity)
    → ¬ IsContinued e.point
    → queue e ≢ []
    → Advances (cost e) (step (idle history) e).0
unfolding step activate poll
step-Advances history e live h =
    let r : Entity = (resume e.point history e.fields).0 in
    let e' : Entity = (poll_at r.point history r.fields).0 in
    let advanced : Advances (cost e) e' =
      resume-Advances e.point e.fields.pending history e.fields live refl h in
    rw (next_run-live e'.point e' advanced.live) advanced
