-- ===== src/Workflows/Batch/Fanout.antt =====
-- How many children a batch starts (workflows/batch.py).
use warden_demo_workload.Prelude.{
  ℕ, zero, suc, ◌≡◌, ◌≢◌, ◌≤◌, refl, String, List, [], ◌∷◌, map, arith, length, eq_iff, Bool-cases,
  inl, inr, ◌==◌, ap, ◌∙◌,
}
use warden_demo_workload.Prelude.Int.{ℤ, pos, pos_part, negsuc}
use warden_demo_workload.Common.Models.{BatchInput}
use warden_demo_workload.Python.Value.{Micro, Value, int}
use warden_demo_workload.Temporal
use warden_demo_workload.Temporal.{
  Command, child, Child, activity, local_activity, timer, wait_until, signal,
}
use warden_demo_workload.Workflows.Batch.{
  run, fan_out, range, effective_fanout, range_from, candidate_child,
}

length-range_from : (i n : ℕ) → length (range_from i n) ≡ n
length-range_from i zero = refl
length-range_from i (suc n) = ap suc (length-range_from (suc i) n)

-- The child workflows among the commands.
abbrev pub children : List Command → ℕ
children [] = 0
children (child c ∷ log) = suc (children log)
children (activity a xs ∷ log) = children log
children (Temporal.local_activity a xs ∷ log) = children log
children (Temporal.timer n ∷ log) = children log
children (Temporal.wait_until n ∷ log) = children log
children (Temporal.signal i s ∷ log) = children log
children (Temporal.upsert pairs ∷ log) = children log

children-activities :
    (name : ℕ → List Value) (xs : List ℕ)
    → children (map (λ i. activity "tiny_eval" (name i)) xs) ≡ 0
children-activities name [] = refl
children-activities name (x ∷ xs) = children-activities name xs

children-map : (c : ℕ → Child) (xs : List ℕ) → children (map (λ i. child (c i)) xs) ≡ length xs
children-map c [] = refl
children-map c (x ∷ xs) = ap suc (children-map c xs)

length-range : (n : ℤ) → length (range n) ≡ pos_part n
length-range (pos n) = length-range_from 0 n
length-range (negsuc n) = refl

fanout_bounded :
    (inp : BatchInput) → inp.mode ≢ "fanout_storm" → pos_part (effective_fanout inp) ≤ 8
unfolding effective_fanout
fanout_bounded inp calm = ground (arith, eq_iff inp.mode "fanout_storm")

children-fan_out :
    (scores : String → Micro) (inp : BatchInput) (n : ℤ)
    → children (fan_out scores inp n).1 ≡ pos_part n
unfolding fan_out
children-fan_out scores inp n = children-map (candidate_child inp n) (range n) ∙ length-range n

-- A batch starts as many children as the `effective_fanout` that its start attributes announce,
-- none when that is negative.
pub run-children :
    (scores : String → Micro) (inp : BatchInput)
    → children (run scores inp).1 ≡ pos_part (effective_fanout inp)
unfolding run
run-children scores inp = elim (Bool-cases (inp.mode == "sequential_bloat")) [
  | inl bloat ↦ rw bloat (children-activities (λ i. int (pos i) ∷ []) (range inp.iterations))
  | inr other ↦
      let counted = children-fan_out scores inp (effective_fanout inp) in
      rw other (rw other at counted)
]

-- A batch starts at most 8 children unless its mode is the storm's.
pub run_bounded :
    (scores : String → Micro) (inp : BatchInput)
    → inp.mode ≢ "fanout_storm"
    → children (run scores inp).1 ≤ 8
run_bounded scores inp calm = rw (run-children scores inp) (fanout_bounded inp calm)
