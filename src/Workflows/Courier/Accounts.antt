-- ===== src/Workflows/Courier/Accounts.antt =====
-- What a courier's shift does with its assignments (workflows/courier.py).
use warden_demo_workload.Prelude.{
  ℕ, suc, ◌+◌, ◌≡◌, refl, arith, List, [], ◌∷◌, ◌++◌, Bool-cases, inl, inr, String, length,
  length-append, ltb,
}
use warden_demo_workload.Workflows.Courier.{
  Courier, Point, waiting, accepting, reporting, finished, continued, Signal, location_ping,
  assignment, end_shift, handle_all, Entity, Activation, activate, run_from, resume, poll, poll_at,
  body, drain, drain_from, finish, wakes, max_history,
}

-- The assignments among the signals.
abbrev pub arrived : List Signal → ℕ
arrived [] = 0
arrived (assignment order_id ∷ signals) = suc (arrived signals)
arrived (location_ping lat lon ∷ signals) = arrived signals
arrived (end_shift ∷ signals) = arrived signals

abbrev pub arrivals : List Activation → ℕ
arrivals [] = 0
arrivals (a ∷ activations) = arrived a.signals + arrivals activations

-- 1 while an assignment is in the activity that accepts it.
abbrev pub in_hand : Point → ℕ
in_hand accepting = 1
in_hand waiting = 0
in_hand reporting = 0
in_hand (finished s) = 0
in_hand (continued s ps) = 0

-- Every assignment the shift knows of: counted, in hand, or still in the list.
abbrev pub known : Entity → ℕ
known e = e.fields.count + in_hand e.point + length e.fields.assignments

handle_all-known :
    (signals : List Signal) (c : Courier)
    → let c' = handle_all signals c in
      (c'.count ≡ c.count) × (length c'.assignments ≡ arrived signals + length c.assignments)
unfolding handle_all
handle_all-known [] c = (refl, omega arith)
handle_all-known (assignment order_id ∷ signals) c =
    let (count, left) =
      handle_all-known signals (record c { assignments = c.assignments ++ order_id ∷ [] }) in
    (count, omega (arith, left, length-append c.assignments (order_id ∷ [])))
handle_all-known (location_ping lat lon ∷ signals) c = handle_all-known signals _
handle_all-known (end_shift ∷ signals) c = handle_all-known signals _

drain_from-known :
    (assignments : List String) (history : ℕ) (c : Courier)
    → c.assignments ≡ assignments
    → known (drain_from assignments history c).0 ≡ c.count + length assignments
unfolding drain_from finish
drain_from-known [] history c e = elim (Bool-cases (ltb max_history history)) [
  | inl over ↦ rw (over, e) (omega arith)
  | inr short ↦ rw (short, e) (omega arith)
]
drain_from-known (order_id ∷ rest) history c e = omega arith

poll_at-known :
    (p : Point) (history : ℕ) (c : Courier)
    → known (poll_at p history c).0 ≡ c.count + in_hand p + length c.assignments
unfolding body drain
poll_at-known waiting history c = elim (Bool-cases (wakes history c)) [
  | inr blocked ↦ rw blocked refl
  | inl woken ↦ rw woken (elim (Bool-cases c.ended) [
    | inl over ↦ simp over (omega arith)
    | inr on ↦ simp on (omega (arith, drain_from-known c.assignments history c refl))
  ])
]
poll_at-known accepting history c = refl
poll_at-known reporting history c = refl
poll_at-known (finished s) history c = refl
poll_at-known (continued s ps) history c = refl

resume-known :
    (p : Point) (history : ℕ) (c : Courier)
    → known (resume p history c).0 ≡ c.count + in_hand p + length c.assignments
unfolding resume drain
resume-known waiting history c = refl
resume-known accepting history c = omega arith
resume-known reporting history c = omega (arith, drain_from-known c.assignments history c refl)
resume-known (finished s) history c = refl
resume-known (continued s ps) history c = refl

pub activate-known :
    (a : Activation) (e : Entity) → known (activate a e).0 ≡ known e + arrived a.signals
unfolding activate poll
activate-known a e =
    let c : Courier = handle_all a.signals e.fields in
    let (count, left) = handle_all-known a.signals e.fields in
    elim (Bool-cases a.done) [
      | inl resumed ↦
          let r : Entity = (resume e.point a.history c).0 in
          rw resumed (
            omega (
              arith,
              count,
              left,
              poll_at-known r.point a.history r.fields,
              resume-known e.point a.history c,
            ))
      | inr idle ↦ rw idle (omega (arith, count, left, poll_at-known e.point a.history c))
    ]

-- A shift loses no assignment and counts none twice: after any activations from any state, the
-- assignments it has counted, has in hand or has still in its list are those it knew of before and
-- those that arrived.
pub run_from-known :
    (activations : List Activation) (e : Entity)
    → known (run_from activations e).0 ≡ known e + arrivals activations
unfolding run_from
run_from-known [] e = omega arith
run_from-known (a ∷ activations) e =
    omega (arith, activate-known a e, run_from-known activations (activate a e).0)
