-- ===== src/Workflows/Batch.antt =====
-- workflows/batch.py and workflows/candidate.py: the fan-out of a batch, and its winners. The scores
-- that the child workflows return are given by the child's id.
pub mod Fanout
pub mod Children
mod Tests
pub mod Winners
use warden_demo_workload.Prelude.{
  ℕ, zero, suc, String, Bool, true, false, List, [], ◌∷◌, ◌++◌, map, take, min, if◌then◌else◌, ◌==◌,
}
use Prim.Native.String.{◌++◌ as ◌⧺◌}
use warden_demo_workload.Prelude.Int.{ℤ, pos, negsuc, ltb_ℤ, leb_ℤ}
use warden_demo_workload.Common.Constants.{batch_tq, candidate_id, show}
use warden_demo_workload.Common.Models.{BatchInput, CandidateInput}
use warden_demo_workload.Common.SearchAttributes.{
  Pair, set, AttributeValue, batch_mode, fanout_size,
}
use warden_demo_workload.Python.Value.{Micro, int, str}
use warden_demo_workload.Activities.{score_candidate}
use warden_demo_workload.Temporal.{Attempt, Command, activity, child, Child, candidate}

abbrev pub normal_max_children : ℤ
normal_max_children = pos 8

abbrev min_ℤ : ℤ → ℤ → ℤ
min_ℤ a b = if leb_ℤ a b then a else b

unfoldable pub effective_fanout : BatchInput → ℤ
effective_fanout inp =
    if inp.mode == "sequential_bloat"
    then pos 0
    else if inp.mode == "fanout_storm"
    then inp.children
    else min_ℤ inp.children normal_max_children

-- `range(n)`
abbrev pub range_from : ℕ → ℕ → List ℕ
range_from i zero = []
range_from i (suc n) = i ∷ range_from (suc i) n

abbrev pub range : ℤ → List ℕ
range (pos n) = range_from 0 n
range (negsuc n) = []

-- The candidate's id in the batch.
unfoldable pub child_name : ℕ → String
child_name i = "c" ⧺ show i

-- The child workflow number `i` of a batch of `n`.
unfoldable pub candidate_child : BatchInput → ℤ → ℕ → Child
unfolding child_name
candidate_child inp n i = record {
  workflow = "CandidateEvalWorkflow";
  input = candidate (record { batch_id = inp.batch_id; candidate_id = child_name i });
  id = candidate_id inp.batch_id i;
  task_queue = batch_tq;
  abandoned = false;
  attributes =
      set batch_mode (AttributeValue.text inp.mode) ∷ set fanout_size (AttributeValue.int n) ∷ [];
}

-- A candidate by its number, with its score.
abbrev pub Ranked : Type 0
Ranked = ℕ × Micro

-- Python's stable sort, by falling score: an entry goes behind those with the same score.
unfoldable pub insert : Ranked → List Ranked → List Ranked
insert x [] = x ∷ []
insert x (y ∷ ys) = if ltb_ℤ y.1 x.1 then x ∷ y ∷ ys else y ∷ insert x ys

unfoldable pub sort_onto : List Ranked → List Ranked → List Ranked
unfolding insert
sort_onto [] sorted = sorted
sort_onto (x ∷ xs) sorted = sort_onto xs (insert x sorted)

abbrev pub number_from : ℕ → List Micro → List Ranked
number_from i [] = []
number_from i (s ∷ scores) = (i, s) ∷ number_from (suc i) scores

unfoldable pub rank : List Micro → List Ranked
unfolding sort_onto
rank scores = sort_onto (number_from 0 scores) []

-- `sorted(range(len(scores)), key=lambda i: scores[i], reverse=True)[:3]`
unfoldable pub winners : List Micro → List ℕ
unfolding rank
winners scores = map (λ x. x.0) (take 3 (rank scores))

-- What a batch returns.
pub data BatchResult : Type 0 where
  bloated : ℤ → BatchResult
  fanned_out : String → ℤ → List ℕ → BatchResult

-- The fan-out to `n` children, and what comes of their scores.
unfoldable pub fan_out : (String → Micro) → BatchInput → ℤ → BatchResult × List Command
unfolding candidate_child winners
fan_out scores inp n = (
  fanned_out inp.mode n (winners (map (λ i. scores (candidate_id inp.batch_id i)) (range n))),
  map (λ i. child (candidate_child inp n i)) (range n),
)

-- `run`: its result and its commands, for the scores that the children return.
unfoldable pub run : (String → Micro) → BatchInput → BatchResult × List Command
unfolding effective_fanout fan_out
run scores inp =
    if inp.mode == "sequential_bloat"
    then (
      bloated inp.iterations,
      map (λ i. activity "tiny_eval" (int (pos i) ∷ [])) (range inp.iterations),
    )
    else fan_out scores inp (effective_fanout inp)

-- `CandidateEvalWorkflow.run`: its activity, and the attempt's outcome.
unfoldable pub evaluate : CandidateInput → Attempt Micro × List Command
unfolding score_candidate
evaluate inp =
    (score_candidate inp.candidate_id, activity "score_candidate" (str inp.candidate_id ∷ []) ∷ [])
