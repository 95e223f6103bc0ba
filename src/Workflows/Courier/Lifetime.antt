-- ===== src/Workflows/Courier/Lifetime.antt =====
-- A courier's shift over its whole life (workflows/courier.py): the runs that continue-as-new
-- chains.
use warden_demo_workload.Prelude.{
  ℕ, ◌+◌, subst, sym, ◌≡◌, refl, String, List, [], ◌∷◌, ◌++◌, Bool-cases, inl, inr, arith, ltb,
}
use warden_demo_workload.Common.Models.{CourierState}
use warden_demo_workload.Common.SearchAttributes.{Pair}
use warden_demo_workload.Workflows.Courier.{
  Courier, Point, Entity, waiting, accepting, reporting, finished, continued, Ran, at, max_history,
  activate, Activation, begin, init, carry, finish, drain_from, drain, body, wakes, resume, poll,
  poll_at, handle_all,
}
use warden_demo_workload.Workflows.Courier.Accounts.{arrivals, known, activate-known}

abbrev pub next_run : Point → Entity → Entity
next_run (continued state pairs) e = begin state init
next_run waiting e = e
next_run accepting e = e
next_run reporting e = e
next_run (finished result) e = e

-- What an activation leaves: the run, or the start of the next one when it continued as new.
unfoldable pub step : Activation → Entity → Ran
unfolding activate begin
step a e = let (e', commands) = activate a e in (next_run e'.point e', commands)

-- The activations of all the runs of the chain, each of which begins before it handles its signals.
unfoldable pub lifetime : List Activation → Entity → Ran
unfolding step
lifetime [] e = (e, [])
lifetime (a ∷ activations) e =
    let (e', commands) = step a e in
    let (e'', more) = lifetime activations e' in (e'', commands ++ more)

abbrev pub IsContinued : Point → Type 0
IsContinued (continued s ps) = Unit
IsContinued waiting = ⊥
IsContinued accepting = ⊥
IsContinued reporting = ⊥
IsContinued (finished s) = ⊥

-- A run that continues as new carries its fields, and has no assignment left.
abbrev pub Carries : Entity → Type 0
Carries e =
    (state : CourierState) (pairs : List Pair)
    → e.point ≡ continued state pairs
    → (state ≡ carry e.fields) × (e.fields.assignments ≡ [])

finish-Carries : (history : ℕ) (c : Courier) → c.assignments ≡ [] → Carries (finish history c).0
unfolding finish
finish-Carries history c empty state pairs h = elim (Bool-cases (ltb max_history history)) [
  | inl over ↦ let e : continued (carry c) _ ≡ continued state pairs = rw over at h in (cc e, empty)
  | inr short ↦ absurd (ground (arith, rw short at h))
]

drain_from-Carries :
    (assignments : List String) (history : ℕ) (c : Courier)
    → c.assignments ≡ assignments
    → Carries (drain_from assignments history c).0
unfolding drain_from
drain_from-Carries [] history c e state pairs h = finish-Carries history c e state pairs h
drain_from-Carries (order_id ∷ rest) history c e state pairs h = cc h

body-Carries : (history : ℕ) (c : Courier) → Carries (body history c).0
unfolding body drain
body-Carries history c = elim (Bool-cases c.ended) [
  | inl over ↦ simp over (λ state pairs h. cc h)
  | inr on ↦ simp on (drain_from-Carries c.assignments history c refl)
]

resume-Carries :
    (p : Point) (history : ℕ) (c : Courier) → ¬ IsContinued p → Carries (resume p history c).0
unfolding resume drain
resume-Carries waiting history c live s ps h = cc h
resume-Carries accepting history c live s ps h = cc h
resume-Carries reporting history c live s ps h =
    drain_from-Carries c.assignments history c refl s ps h
resume-Carries (finished r) history c live s ps h = cc h
resume-Carries (continued t qs) history c live s ps h = absurd (live tt)

poll_at-Carries :
    (p : Point) (history : ℕ) (c : Courier) → Carries (at c p) → Carries (poll_at p history c).0
poll_at-Carries waiting history c h = elim (Bool-cases (wakes history c)) [
  | inl woken ↦ rw woken (body-Carries history c)
  | inr blocked ↦ rw blocked h
]
poll_at-Carries accepting history c h = h
poll_at-Carries reporting history c h = h
poll_at-Carries (finished r) history c h = h
poll_at-Carries (continued s ps) history c h = h

live-Carries : (p : Point) (c : Courier) → ¬ IsContinued p → Carries (at c p)
live-Carries p c live s ps h = absurd (live (subst IsContinued (sym h) tt))

pub activate-Carries :
    (a : Activation) (e : Entity) → ¬ IsContinued e.point → Carries (activate a e).0
unfolding activate poll
activate-Carries a e live =
    let c : Courier = handle_all a.signals e.fields in
    let r : Entity = (resume e.point a.history c).0 in
    elim (Bool-cases a.done) [
      | inl resumed ↦
          rw resumed
            (poll_at-Carries r.point a.history r.fields (resume-Carries e.point a.history c live))
      | inr idle ↦ rw idle (poll_at-Carries e.point a.history c (live-Carries e.point c live))
    ]

begin-known : (state : CourierState) → known (begin state init) ≡ state.assignments
unfolding begin
begin-known state = omega arith

pub next_run-known :
    (p : Point) (e : Entity)
    → Carries e
    → e.point ≡ p
    → (known (next_run p e) ≡ known e) × ¬ IsContinued (next_run p e).point
unfolding begin carry
next_run-known waiting e h same = (refl, rw same (λ c. c))
next_run-known accepting e h same = (refl, rw same (λ c. c))
next_run-known reporting e h same = (refl, rw same (λ c. c))
next_run-known (finished r) e h same = (refl, rw same (λ c. c))
next_run-known (continued state pairs) e h same =
    let (carried, empty) = h state pairs same in
    (rw (begin-known state, carried, same, empty) (omega arith), λ c. c)

-- Continue-as-new loses no assignment and counts none twice: over any activations, however often the
-- run is replaced by the next, the assignments that the shift has counted, has in hand or has still
-- in its list are those it knew of before and those that arrived. The run at the start is not over,
-- and each run of the chain begins before it handles its signals.
pub lifetime-known :
    (activations : List Activation) (e : Entity)
    → ¬ IsContinued e.point
    → known (lifetime activations e).0 ≡ known e + arrivals activations
unfolding lifetime step
lifetime-known [] e live = omega arith
lifetime-known (a ∷ activations) e live =
    let r : Entity = (activate a e).0 in
    let (kept, alive) = next_run-known r.point r (activate-Carries a e live) refl in
    omega (arith, kept, activate-known a e, lifetime-known activations (next_run r.point r) alive)
