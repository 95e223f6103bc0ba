-- ===== src/Common/Constants.antt =====
-- common/constants.py: task queues, regions and workflow ids.
pub mod Numerals
use Prim.Native.String.{◌++◌ as ◌⧺◌, slice, len}
use warden_demo_workload.Prelude.{
  ℕ, zero, suc, ◌-◌, ◌/◌, ◌%◌, String, ltb, if◌then◌else◌, List, [], ◌∷◌, ◌==◌, Bool, ◌≡◌, refl,
}

abbrev pub order_tq : String
order_tq = "order-tq"

abbrev pub dispatch_tq : String
dispatch_tq = "dispatch-tq"

abbrev pub courier_tq : String
courier_tq = "courier-tq"

abbrev pub batch_tq : String
batch_tq = "batch-tq"

abbrev pub settlement_tq : String
settlement_tq = "settlement-tq"

abbrev pub menu_tq : String
menu_tq = "menu-tq"

abbrev pub control_tq : String
control_tq = "control-tq"

abbrev pub all_task_queues : List String
all_task_queues =
    order_tq ∷ dispatch_tq ∷ courier_tq ∷ batch_tq ∷ settlement_tq ∷ menu_tq ∷ control_tq ∷ []

abbrev pub regions : List String
regions = "us-west" ∷ "us-east" ∷ "midwest" ∷ "south" ∷ "northeast" ∷ []

abbrev pub control_workflow_id : String
control_workflow_id = "demo-control"

-- The text of a natural number.
abbrev pub digit : ℕ → String
digit zero = "0"
digit (suc zero) = "1"
digit (suc (suc zero)) = "2"
digit (suc (suc (suc zero))) = "3"
digit (suc (suc (suc (suc zero)))) = "4"
digit (suc (suc (suc (suc (suc zero))))) = "5"
digit (suc (suc (suc (suc (suc (suc zero)))))) = "6"
digit (suc (suc (suc (suc (suc (suc (suc zero))))))) = "7"
digit (suc (suc (suc (suc (suc (suc (suc (suc zero)))))))) = "8"
digit (suc (suc (suc (suc (suc (suc (suc (suc (suc n))))))))) = "9"

unfoldable pub show_from : ℕ → ℕ → String
show_from zero n = ""
show_from (suc fuel) n =
    let rest = show_from fuel (n / 10) ⧺ digit (n % 10) in if ltb n 10 then digit n else rest

-- `str(n)`: a number has at most as many digits as `suc n`.
unfoldable pub show : ℕ → String
unfolding show_from
show n = show_from (suc n) n

unfoldable pub dispatch_id : String → String
dispatch_id region = "dispatch-" ⧺ region

unfoldable pub courier_id : String → String
courier_id courier = "courier-" ⧺ courier

unfoldable pub settlement_id : String → String
settlement_id order_id = "settle-" ⧺ order_id

unfoldable pub candidate_id : String → ℕ → String
unfolding show
candidate_id batch_uuid n = "cand-" ⧺ batch_uuid ⧺ "-" ⧺ show n

-- `queue.endswith("-tq")` and `queue[:-3]`.
abbrev ends_with_tq : String → Bool
ends_with_tq queue = slice queue (len queue - 3) (len queue) == "-tq"

unfoldable pub worker_container_name : String → String
worker_container_name queue =
    "warden-worker-" ⧺ (if ends_with_tq queue then slice queue 0 (len queue - 3) else queue)

test_container : worker_container_name "order-tq" ≡ "warden-worker-order"
unfolding worker_container_name
test_container = refl

test_candidate : candidate_id "ab" 120 ≡ "cand-ab-120"
unfolding candidate_id
test_candidate = refl
