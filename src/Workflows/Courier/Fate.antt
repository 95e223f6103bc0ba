-- ===== src/Workflows/Courier/Fate.antt =====
-- What becomes of a shift that is told to end while it is at work (workflows/courier.py).
use warden_demo_workload.Prelude.{
  ℕ, suc, ◌+◌, ◌-◌, ◌*◌, ◌≤◌, ◌<◌, ◌≡◌, ◌⊎◌, refl, ap, ◌∙◌, sym, subst, String, true, false, List,
  [], ◌∷◌, ◌++◌, length, map, inl, inr, arith, Bool-cases, ltb,
}
use warden_demo_workload.Workflows.Courier.{
  Courier, Point, Entity, waiting, accepting, reporting, finished, continued, at, activate, begin,
  init, carry, max_history, drain_from, drain, body, wakes, resume, poll, finish, shift_ended,
}
use warden_demo_workload.Workflows.Courier.Accounts.{known, in_hand}
use warden_demo_workload.Workflows.Courier.Lifetime.{IsContinued, step, lifetime}
use warden_demo_workload.Workflows.Courier.Reports.{reports, times, report_of, lifetime-Reports}
use warden_demo_workload.Workflows.Courier.Drains.{idle}

-- The awaits until a shift at work has taken its last assignment and reported it: two for each in the
-- list, two for one that is being accepted, and one for one that is being reported.
abbrev pub work : Point → List String → ℕ
work accepting assignments = 2 + 2 * length assignments
work reporting assignments = 1 + 2 * length assignments
work waiting assignments = 0
work (finished r) assignments = 0
work (continued s ps) assignments = 0

abbrev pub IsAtWork : Point → Type 0
IsAtWork accepting = Unit
IsAtWork reporting = Unit
IsAtWork waiting = ⊥
IsAtWork (finished r) = ⊥
IsAtWork (continued s ps) = ⊥

-- The fields when every assignment is counted.
abbrev pub worked_off : Courier → ℕ → Courier
worked_off c n = record c { count = n; assignments = [] }

-- By the history at the last report: the shift returns its result, or the next run begins, which has
-- not been told to end.
abbrev pub Fate : Courier → ℕ → Entity → Type 0
Fate d history e =
    ((history ≤ max_history) × (e ≡ at d (finished (shift_ended d))))
    ⊎ ((max_history < history) × (e ≡ begin (carry d) init) × (e.fields.ended ≡ false))

step-accepting :
    (history : ℕ) (c : Courier)
    → (step (idle history) (at c accepting)).0 ≡ at (record c { count = c.count + 1 }) reporting
unfolding step activate resume poll
step-accepting history c = refl

step-next :
    (history : ℕ) (c : Courier) (o : String) (rest : List String)
    → c.assignments ≡ o ∷ rest
    → (step (idle history) (at c reporting)).0 ≡ at (record c { assignments = rest }) accepting
unfolding step activate resume drain drain_from poll
step-next history c o rest left = rw left refl

step-last :
    (history : ℕ) (c : Courier)
    → c.assignments ≡ []
    → c.ended ≡ true
    → Fate c history (step (idle history) (at c reporting)).0
unfolding step activate resume drain drain_from finish poll wakes body begin
step-last history c none_left over = elim (Bool-cases (ltb max_history history)) [
  | inl long ↦ inr (ground (arith, long), simp (none_left, long), simp (none_left, long))
  | inr short ↦ inl (ground (arith, short), simp (none_left, short, over))
]

-- The fields, when the list is empty and the count known.
worked_off_lem : (c : Courier) (n : ℕ) → c.assignments ≡ [] → c.count ≡ n → c ≡ worked_off c n
worked_off_lem c n none_left counted =
    ap (λ k. record c { count = k }) counted
    ∙ ap (λ (left : List String). record c { count = n; assignments = left }) none_left

after_step :
    (d : Courier) (history h : ℕ) (histories : List ℕ) (e e' : Entity)
    → (step (idle h) e).0 ≡ e'
    → Fate d history (lifetime (map idle histories) e').0
    → Fate d history (lifetime (map idle (h ∷ histories)) e).0
unfolding lifetime
after_step d history h histories e e' same fate =
    subst (λ x. Fate d history (lifetime (map idle histories) x).0) (sym same) fate

-- With as many awaits as there is work.
worked-Fate :
    (before : List ℕ) (history : ℕ) (p : Point) (c : Courier) (left : List String) (n : ℕ)
    → IsAtWork p
    → c.assignments ≡ left
    → c.ended ≡ true
    → work p left ≡ suc (length before)
    → c.count + in_hand p + length left ≡ n
    → Fate (worked_off c n) history (lifetime (map idle (before ++ history ∷ [])) (at c p)).0
unfolding lifetime
worked-Fate [] history accepting c left n going same over due counted = absurd (omega (arith, due))
worked-Fate (h ∷ before) history accepting c left n going same over due counted =
    after_step (worked_off c n) history h (before ++ history ∷ []) (at c accepting)
      (at (record c { count = c.count + 1 }) reporting) (step-accepting h c)
      (worked-Fate before history reporting (record c { count = c.count + 1 }) left n tt same over
        (omega (arith, due)) (omega (arith, counted)))
worked-Fate [] history reporting c [] n going same over due counted =
    subst (λ d. Fate d history (step (idle history) (at c reporting)).0)
      (worked_off_lem c n same (omega (arith, counted))) (step-last history c same over)
worked-Fate (h ∷ before) history reporting c [] n going same over due counted =
    absurd (omega (arith, due))
worked-Fate [] history reporting c (o ∷ rest) n going same over due counted =
    absurd (omega (arith, due))
worked-Fate (h ∷ before) history reporting c (o ∷ rest) n going same over due counted =
    after_step (worked_off c n) history h (before ++ history ∷ []) (at c reporting)
      (at (record c { assignments = rest }) accepting) (step-next h c o rest same)
      (worked-Fate before history accepting (record c { assignments = rest }) rest n tt refl over
        (omega (arith, due)) (omega (arith, counted)))
worked-Fate before history waiting c left n going same over due counted = absurd going
worked-Fate before history (finished r) c left n going same over due counted = absurd going
worked-Fate before history (continued s ps) c left n going same over due counted = absurd going

Fate-count : (d : Courier) (history : ℕ) (e : Entity) → Fate d history e → e.fields.count ≡ d.count
unfolding begin carry
Fate-count d history e (inl (short, returned)) = ap (λ x. x.fields.count) returned
Fate-count d history e (inr (long, renewed, going)) = ap (λ x. x.fields.count) renewed

IsAtWork-live : (p : Point) → IsAtWork p → ¬ IsContinued p
IsAtWork-live accepting h c = c
IsAtWork-live reporting h c = c
IsAtWork-live waiting h c = h
IsAtWork-live (finished r) h c = h
IsAtWork-live (continued s ps) h c = h

-- A shift that has been told to end while it is at work takes and reports every assignment that it
-- knows of, with no further signal, in as many awaits as they need; and then it has ended, with the
-- count of all of them in its result, if its history is at most 1500 events at its last report.
-- With a longer history it does not end: it continues as new, and the next run has the count but has
-- not been told to end.
pub end_shift-Fate :
    (before : List ℕ) (history : ℕ) (e : Entity)
    → IsAtWork e.point
    → e.fields.ended ≡ true
    → work e.point e.fields.assignments ≡ suc (length before)
    → let (e', commands) = lifetime (map idle (before ++ history ∷ [])) e in
      Fate (worked_off e.fields (known e)) history e'
      × (reports commands ≡ times (known e - e.fields.count) (report_of e.fields))
end_shift-Fate before history e going over due =
    let histories : List ℕ = before ++ history ∷ [] in
    let fate : Fate (worked_off e.fields (known e)) history (lifetime (map idle histories) e).0 =
      worked-Fate before history e.point e.fields e.fields.assignments (known e) going refl over due
        refl in
    let told = lifetime-Reports (map idle histories) e (IsAtWork-live e.point going) in
    let n : told.counted ≡ known e - e.fields.count =
      omega (arith, told.added, Fate-count _ history _ fate) in
    (fate, told.made ∙ ap (λ k. times k (report_of e.fields)) n)
