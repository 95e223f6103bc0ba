-- ===== src/Scripts/Visibility/Reports.antt =====
-- What the report of the visibility demonstration shows (scripts/visibility_demo.py).
use warden_demo_workload.Prelude.{
  ℕ, ◌+◌, ◌*◌, ◌≤◌, ◌≡◌, refl, String, List, [], ◌∷◌, ◌++◌, map, length, Bool-cases, inl, inr,
  arith, leb, ap, ◌∙◌,
}
use warden_demo_workload.Scripts.Visibility.{
  Query, Listing, end, fails, entry, Answer, counted, count_failed, Line, title, filter_text,
  matching, sampled, error, no_match, sample, answered, report,
}

-- The titles of a report, and the workflows that it lists.
abbrev pub titles : List Line → List String
titles [] = []
titles (title label ∷ ls) = label ∷ titles ls
titles (filter_text f ∷ ls) = titles ls
titles (matching n ∷ ls) = titles ls
titles (sampled id ∷ ls) = titles ls
titles (error ∷ ls) = titles ls
titles (no_match ∷ ls) = titles ls

abbrev pub samples : List Line → List String
samples [] = []
samples (title label ∷ ls) = samples ls
samples (filter_text f ∷ ls) = samples ls
samples (matching n ∷ ls) = samples ls
samples (sampled id ∷ ls) = id ∷ samples ls
samples (error ∷ ls) = samples ls
samples (no_match ∷ ls) = samples ls

-- The numbers of workflows that a report tells.
abbrev pub numbers : List Line → List ℕ
numbers [] = []
numbers (title label ∷ ls) = numbers ls
numbers (filter_text f ∷ ls) = numbers ls
numbers (matching n ∷ ls) = n ∷ numbers ls
numbers (sampled id ∷ ls) = numbers ls
numbers (error ∷ ls) = numbers ls
numbers (no_match ∷ ls) = numbers ls

-- The numbers that the server gives for some queries.
abbrev with_number : Answer → List ℕ → List ℕ
with_number (counted n listing) ns = n ∷ ns
with_number count_failed ns = ns

abbrev pub counts : (String → Answer) → List Query → List ℕ
counts answers [] = []
counts answers ((label, filter) ∷ qs) = with_number (answers filter) (counts answers qs)

titles-sample :
    (shown : ℕ) (l : Listing) (ls : List Line) → titles (sample shown l ++ ls) ≡ titles ls
unfolding sample
titles-sample shown end ls = refl
titles-sample shown fails ls = refl
titles-sample shown (entry id l) ls = elim (Bool-cases (leb 2 (shown + 1))) [
  | inl enough ↦ rw enough refl
  | inr more ↦ rw more (titles-sample (shown + 1) l ls)
]

numbers-sample :
    (shown : ℕ) (l : Listing) (ls : List Line) → numbers (sample shown l ++ ls) ≡ numbers ls
unfolding sample
numbers-sample shown end ls = refl
numbers-sample shown fails ls = refl
numbers-sample shown (entry id l) ls = elim (Bool-cases (leb 2 (shown + 1))) [
  | inl enough ↦ rw enough refl
  | inr more ↦ rw more (numbers-sample (shown + 1) l ls)
]

samples-sample :
    (l : Listing) (ls : List Line) → length (samples (sample 0 l ++ ls)) ≤ 2 + length (samples ls)
unfolding sample
samples-sample end ls = omega arith
samples-sample fails ls = omega arith
samples-sample (entry id end) ls = omega arith
samples-sample (entry id fails) ls = omega arith
samples-sample (entry id (entry id' l)) ls = omega arith

titles-answered : (a : Answer) (ls : List Line) → titles (answered a ++ ls) ≡ titles ls
unfolding answered
titles-answered count_failed ls = refl
titles-answered (counted n l) ls = titles-sample 0 l ls

numbers-answered :
    (a : Answer) (ls : List Line) → numbers (answered a ++ ls) ≡ with_number a (numbers ls)
unfolding answered
numbers-answered count_failed ls = refl
numbers-answered (counted n l) ls = ap (λ ns. n ∷ ns) (numbers-sample 0 l ls)

samples-answered :
    (a : Answer) (ls : List Line) → length (samples (answered a ++ ls)) ≤ 2 + length (samples ls)
unfolding answered
samples-answered count_failed ls = omega arith
samples-answered (counted n l) ls = samples-sample l ls

-- Whatever fails, the report has the title of every query, in order, and the number that each count
-- which does not fail gives, in order; and it lists at most two workflows for each query.
pub report-shows :
    (answers : String → Answer) (qs : List Query)
    → (titles (report answers qs) ≡ map (λ q. q.0) qs)
      × (numbers (report answers qs) ≡ counts answers qs)
      × (length (samples (report answers qs)) ≤ 2 * length qs)
unfolding report
report-shows answers [] = (refl, refl, omega arith)
report-shows answers ((label, filter) ∷ qs) =
    let (titled, numbered, few) = report-shows answers qs in
    let rest = report answers qs in
    (
      ap (λ ls. label ∷ ls) (titles-answered (answers filter) rest ∙ titled),
      numbers-answered (answers filter) rest ∙ ap (with_number (answers filter)) numbered,
      omega (arith, samples-answered (answers filter) rest, few),
    )
