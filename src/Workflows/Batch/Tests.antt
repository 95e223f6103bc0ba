-- ===== src/Workflows/Batch/Tests.antt =====
-- Batches on concrete inputs.
use warden_demo_workload.Prelude.{length, IsDistinct, String, ◌≡◌, refl, List, [], ◌∷◌}
use warden_demo_workload.Prelude.Int.{pos, pos_part}
use warden_demo_workload.Python.Value.{Micro}
use warden_demo_workload.Common.Models.{BatchInput}
use warden_demo_workload.Workflows.Batch.{winners, run, effective_fanout}
use warden_demo_workload.Workflows.Batch.Winners.{IsPodium, winners-IsPodium}
use warden_demo_workload.Workflows.Batch.Children.{child_ids, run-child_ids}

abbrev scores : List Micro
scores = pos 200000 ∷ pos 900000 ∷ pos 200000 ∷ pos 500000 ∷ []

test_winners : winners scores ≡ 1 ∷ 3 ∷ 0 ∷ []
unfolding winners
test_winners = refl

winners-IsPodium_example : IsPodium scores (winners scores)
winners-IsPodium_example = winners-IsPodium scores

abbrev surge : BatchInput
surge = record { batch_id = "b1"; mode = "normal"; children = pos 10; iterations = pos 0 }

abbrev even : String → Micro
even id = pos 500000

run-child_ids_example :
    (length (child_ids (run even surge).1) ≡ pos_part (effective_fanout surge))
    × IsDistinct (child_ids (run even surge).1)
run-child_ids_example = run-child_ids even surge
