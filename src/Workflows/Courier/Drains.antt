-- ===== src/Workflows/Courier/Drains.antt =====
-- A courier's shift gets to the end of its assignments (workflows/courier.py).
use warden_demo_workload.Prelude.{
  ℕ, zero, suc, ◌+◌, ◌*◌, ◌≤◌, ◌<◌, ◌≡◌, ◌≢◌, ◌⊎◌, refl, ap, ◌∙◌, String, true, false, List, [],
  ◌∷◌, length, map, inl, inr, arith, ◌-◌,
}
use warden_demo_workload.Workflows.Courier.{
  Courier, Point, Entity, waiting, accepting, reporting, finished, continued, at, activate,
  Activation, drain_from, drain, body, wakes, resume, poll, poll_at,
}
use warden_demo_workload.Workflows.Courier.Accounts.{known, in_hand, arrivals}
use warden_demo_workload.Workflows.Courier.Lifetime.{
  IsContinued, next_run, step, lifetime, lifetime-known,
}
use warden_demo_workload.Workflows.Courier.Reports.{reports, times, report_of, lifetime-Reports}

-- An activation in which the await is done and no signal arrives.
abbrev pub idle : ℕ → Activation
idle history = record { history = history; signals = []; done = true }

-- The awaits until every assignment is counted: two for each in the list, one for one in hand.
abbrev pub cost : Entity → ℕ
cost e = in_hand e.point + 2 * length e.fields.assignments

-- A shift that goes on: neither told to end nor over.
abbrev IsGoing : Point → Type 0
IsGoing waiting = Unit
IsGoing accepting = Unit
IsGoing reporting = Unit
IsGoing (finished r) = ⊥
IsGoing (continued s ps) = ⊥

pub record IsOnShift (e : Entity) : Type 0 where
  pub going : IsGoing e.point
  pub unended : e.fields.ended ≡ false

going-live : (p : Point) → IsGoing p → ¬ IsContinued p
going-live waiting h c = c
going-live accepting h c = c
going-live reporting h c = c
going-live (finished r) h c = h
going-live (continued s ps) h c = h

-- Less is left to do than before, and the shift goes on.
record Advances (before : ℕ) (e : Entity) : Type 0 where
  pub less : cost e < before
  pub on_shift : IsOnShift e

-- The next assignment is taken in hand.
abbrev Takes : List String → Entity → Type 0
Takes rest e = (e.point ≡ accepting) × (e.fields.assignments ≡ rest) × (e.fields.ended ≡ false)

drain_from-Takes :
    (o : String) (rest : List String) (history : ℕ) (c : Courier)
    → c.ended ≡ false
    → Takes rest (drain_from (o ∷ rest) history c).0
unfolding drain_from
drain_from-Takes o rest history c on = (refl, refl, on)

Takes-Advances :
    (rest : List String) (e : Entity) (before : ℕ)
    → Takes rest e
    → 1 + 2 * length rest < before
    → Advances before e
Takes-Advances rest e before (taken, left, on) h = record {
  less = rw (taken, left) h;
  on_shift = record { going = rw taken tt; unended = on };
}

poll_at-accepting :
    (p : Point) (history : ℕ) (c : Courier) → p ≡ accepting → (poll_at p history c).0 ≡ at c p
poll_at-accepting p history c e = rw e refl

-- With an assignment left, every await that is done leaves less to do.
resume-Advances :
    (p : Point) (assignments : List String) (history : ℕ) (c : Courier)
    → IsGoing p
    → c.ended ≡ false
    → c.assignments ≡ assignments
    → in_hand p + length assignments ≢ 0
    → let r = (resume p history c).0 in
      Advances (in_hand p + 2 * length assignments) (poll_at r.point history r.fields).0
unfolding resume drain drain_from wakes body
resume-Advances waiting [] history c going on e h = absurd (h refl)
resume-Advances waiting (o ∷ rest) history c going on e h =
    let woken : wakes history c ≡ true = ground (arith, e, on) in
    let taken : Takes rest (body history c).0 = simp (on, e) (refl, refl, refl) in
    rw woken (Takes-Advances rest (body history c).0 _ taken (omega arith))
resume-Advances accepting assignments history c going on e h = record {
  less = rw e (omega arith);
  on_shift = record { going = tt; unended = on };
}
resume-Advances reporting [] history c going on e h = absurd (h refl)
resume-Advances reporting (o ∷ rest) history c going on e h =
    simp e (Takes-Advances rest _ _ (drain_from-Takes o rest history c on) (omega arith))
resume-Advances (finished r) assignments history c going on e h = absurd going
resume-Advances (continued s ps) assignments history c going on e h = absurd going

next_run-going : (p : Point) (e : Entity) → IsGoing p → next_run p e ≡ e
next_run-going waiting e h = refl
next_run-going accepting e h = refl
next_run-going reporting e h = refl
next_run-going (finished r) e h = absurd h
next_run-going (continued s ps) e h = absurd h

step-Advances :
    (history : ℕ) (e : Entity)
    → IsOnShift e
    → in_hand e.point + length e.fields.assignments ≢ 0
    → Advances (cost e) (step (idle history) e).0
unfolding step activate poll
step-Advances history e on left =
    let r : Entity = (resume e.point history e.fields).0 in
    let e' : Entity = (poll_at r.point history r.fields).0 in
    let advanced : Advances (cost e) e' =
      resume-Advances e.point e.fields.assignments history e.fields on.going on.unended refl left in
    rw (next_run-going e'.point e' advanced.on_shift.going) advanced

arrivals-idle : (histories : List ℕ) → arrivals (map idle histories) ≡ 0
arrivals-idle [] = refl
arrivals-idle (history ∷ histories) = omega (arith, arrivals-idle histories)

-- With nothing in hand and nothing in the list, the count stays.
settled_lem :
    (histories : List ℕ) (e : Entity)
    → ¬ IsContinued e.point
    → in_hand e.point + length e.fields.assignments ≡ 0
    → (lifetime (map idle histories) e).0.fields.count ≡ known e
settled_lem histories e live none_left = omega (
  arith,
  none_left,
  arrivals-idle histories,
  lifetime-known (map idle histories) e live,
  (lifetime-Reports (map idle histories) e live).added,
)

zero_or_not : (n : ℕ) → (n ≡ 0) ⊎ (n ≢ 0)
zero_or_not zero = inl refl
zero_or_not (suc n) = inr (λ e. omega (arith, e))

lifetime-drains :
    (histories : List ℕ) (e : Entity)
    → IsOnShift e
    → cost e ≤ length histories
    → (lifetime (map idle histories) e).0.fields.count ≡ known e
unfolding lifetime
lifetime-drains [] e on h = omega (arith, h)
lifetime-drains (history ∷ histories) e on h =
    elim (zero_or_not (in_hand e.point + length e.fields.assignments)) [
      | inl none_left ↦ settled_lem (history ∷ histories) e (going-live e.point on.going) none_left
      | inr left ↦
          let e' : Entity = (step (idle history) e).0 in
          let advanced : Advances (cost e) e' = step-Advances history e on left in
          let kept : known (lifetime (idle history ∷ []) e).0 ≡ known e + 0 =
            lifetime-known (idle history ∷ []) e (going-live e.point on.going) in
          omega (
            arith,
            kept,
            lifetime-drains histories e' advanced.on_shift (omega (arith, h, advanced.less)),
          )
    ]

-- A shift that has not been told to end gets to the end of its assignments: once as many awaits are done
-- as an assignment in hand and two for each in the list take, in any history and with no further
-- signal, it has counted every assignment that it knew of, and has told its region that it is free
-- once for each that it had not counted before.
pub lifetime-counts :
    (histories : List ℕ) (e : Entity)
    → IsOnShift e
    → cost e ≤ length histories
    → let (e', commands) = lifetime (map idle histories) e in
      (e'.fields.count ≡ known e)
      × (reports commands ≡ times (known e - e.fields.count) (report_of e.fields))
lifetime-counts histories e on h =
    let all : (lifetime (map idle histories) e).0.fields.count ≡ known e =
      lifetime-drains histories e on h in
    let told = lifetime-Reports (map idle histories) e (going-live e.point on.going) in
    let n : told.counted ≡ known e - e.fields.count = omega (arith, all, told.added) in
    (all, told.made ∙ ap (λ k. times k (report_of e.fields)) n)
