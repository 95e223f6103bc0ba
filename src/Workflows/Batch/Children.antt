-- ===== src/Workflows/Batch/Children.antt =====
-- The children that a batch starts, by their ids (workflows/batch.py).
use Prim.Native.String.{◌++◌ as ◌⧺◌}
use text.Mathlib.TextLemmas.{append_cancel_left}
use warden_demo_workload.Prelude.{
  ℕ, zero, suc, ◌<◌, ◌≡◌, ◌≢◌, refl, ap, ◌∙◌, String, List, [], ◌∷◌, map, arith, length, All,
  IsDistinct, Bool-cases, inl, inr, ◌==◌,
}
use warden_demo_workload.Prelude.Int.{ℤ, pos, negsuc, pos_part}
use warden_demo_workload.Common.Constants.{candidate_id, show}
use warden_demo_workload.Common.Constants.Numerals.{show-injective}
use warden_demo_workload.Common.Models.{BatchInput}
use warden_demo_workload.Python.Value.{Micro, Value, int}
use warden_demo_workload.Temporal.{
  Command, child, activity, local_activity, timer, wait_until, signal, upsert,
}
use warden_demo_workload.Workflows.Batch.{
  run, fan_out, range, effective_fanout, range_from, candidate_child,
}
use warden_demo_workload.Workflows.Batch.Fanout.{children, run-children}

-- The ids of the child workflows among the commands, in order.
abbrev pub child_ids : List Command → List String
child_ids [] = []
child_ids (child c ∷ log) = c.id ∷ child_ids log
child_ids (activity a xs ∷ log) = child_ids log
child_ids (local_activity a xs ∷ log) = child_ids log
child_ids (timer n ∷ log) = child_ids log
child_ids (wait_until n ∷ log) = child_ids log
child_ids (signal i s ∷ log) = child_ids log
child_ids (upsert pairs ∷ log) = child_ids log

length-child_ids : (log : List Command) → length (child_ids log) ≡ children log
length-child_ids [] = refl
length-child_ids (child c ∷ log) = ap suc (length-child_ids log)
length-child_ids (activity a xs ∷ log) = length-child_ids log
length-child_ids (local_activity a xs ∷ log) = length-child_ids log
length-child_ids (timer n ∷ log) = length-child_ids log
length-child_ids (wait_until n ∷ log) = length-child_ids log
length-child_ids (signal i s ∷ log) = length-child_ids log
length-child_ids (upsert pairs ∷ log) = length-child_ids log

-- Two candidates of a batch with the same id have the same number.
candidate_id-injective :
    (batch : String) (m n : ℕ) → candidate_id batch m ≡ candidate_id batch n → m ≡ n
unfolding candidate_id
candidate_id-injective batch m n same = show-injective m n (
    append_cancel_left "-" (show m) (show n) (
      append_cancel_left batch ("-" ⧺ show m) ("-" ⧺ show n)
        (append_cancel_left "cand-" (batch ⧺ "-" ⧺ show m) (batch ⧺ "-" ⧺ show n) same)))

module _ (inp : BatchInput) (n : ℤ) where
  abbrev ids_from : ℕ → ℕ → List String
  ids_from i k = child_ids (map (λ j. child (candidate_child inp n j)) (range_from i k))

  ids_from-differ :
      (m i k : ℕ) → m < i → All (λ id. candidate_id inp.batch_id m ≢ id) (ids_from i k)
  unfolding candidate_child
  ids_from-differ m i zero less = tt
  ids_from-differ m i (suc k) less = (
    λ same. omega (arith, less, candidate_id-injective inp.batch_id m i same),
    ids_from-differ m (suc i) k (omega (arith, less)),
  )

  ids_from-IsDistinct : (i k : ℕ) → IsDistinct (ids_from i k)
  unfolding candidate_child
  ids_from-IsDistinct i zero = tt
  ids_from-IsDistinct i (suc k) =
      (ids_from-differ i (suc i) k (omega arith), ids_from-IsDistinct (suc i) k)

fan_out-IsDistinct :
    (scores : String → Micro) (inp : BatchInput) (n : ℤ)
    → IsDistinct (child_ids (fan_out scores inp n).1)
unfolding fan_out
fan_out-IsDistinct scores inp (pos k) = ids_from-IsDistinct inp (pos k) 0 k
fan_out-IsDistinct scores inp (negsuc k) = tt

no_ids :
    (name : ℕ → List Value) (xs : List ℕ)
    → child_ids (map (λ i. activity "tiny_eval" (name i)) xs) ≡ []
no_ids name [] = refl
no_ids name (x ∷ xs) = no_ids name xs

-- A batch starts as many children as the `effective_fanout` that its start attributes announce, none
-- when that is negative, and no two of them under the same id.
pub run-child_ids :
    (scores : String → Micro) (inp : BatchInput)
    → (length (child_ids (run scores inp).1) ≡ pos_part (effective_fanout inp))
      × IsDistinct (child_ids (run scores inp).1)
unfolding run
run-child_ids scores inp = (
  length-child_ids (run scores inp).1 ∙ run-children scores inp,
  elim (Bool-cases (inp.mode == "sequential_bloat")) [
    | inl bloat ↦ rw bloat (rw (no_ids (λ i. int (pos i) ∷ []) (range inp.iterations)) tt)
    | inr other ↦
        let distinct = fan_out-IsDistinct scores inp (effective_fanout inp) in
        rw other (rw other at distinct)
  ],
)
