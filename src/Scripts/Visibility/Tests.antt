-- ===== src/Scripts/Visibility/Tests.antt =====
-- The choice of queries on concrete words.
use warden_demo_workload.Prelude.{
  ◌≡◌, ◌≤◌, ◌*◌, refl, [], ◌∷◌, map, length, String, List, ◌==◌, if◌then◌else◌,
}
use warden_demo_workload.Scripts.Visibility.{
  Query, Answer, counted, count_failed, queries, select, end, fails, entry, sample, sampled, report,
}
use warden_demo_workload.Scripts.Visibility.Reports.{titles, numbers, samples, report-shows}

test_all : length (select [] (queries "now" "soon")) ≡ 15
unfolding select queries
test_all = refl

test_word :
    map (λ q. q.0) (select ("ALLERGEN" ∷ []) (queries "now" "soon"))
    ≡ "Allergen-relevant orders (KeywordList membership)" ∷ []
unfolding select queries
test_word = refl

test_sample : sample 0 (entry "a" (entry "b" (entry "c" fails))) ≡ sampled "a" ∷ sampled "b" ∷ []
unfolding sample
test_sample = refl

-- One query fails, one lists three workflows, and the listing of the others breaks off.
abbrev answers : String → Answer
answers filter =
    if filter == "A = 1"
    then count_failed
    else if filter == "B = 1"
    then counted 3 (entry "a" (entry "b" (entry "c" end)))
    else counted 1 (entry "d" fails)

abbrev asked : List Query
asked = ("first", "A = 1") ∷ ("second", "B = 1") ∷ ("third", "C = 1") ∷ []

report-shows_example :
    (titles (report answers asked) ≡ "first" ∷ "second" ∷ "third" ∷ [])
    × (numbers (report answers asked) ≡ 3 ∷ 1 ∷ [])
    × (length (samples (report answers asked)) ≤ 2 * 3)
report-shows_example = report-shows answers asked
