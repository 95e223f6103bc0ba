-- ===== src/Temporal.antt =====
-- What the workflows use of the Temporal SDK (`temporalio`, which is not in the repository): the
-- commands that a run records, and the execution of activities as an interface with the documented
-- behaviour of retries and timeouts.
pub mod Reference
pub mod Upserts
use warden_demo_workload.Prelude.{ℕ, ◌≤◌, ◌<◌, ◌≡◌, ◌⊎◌, String, Bool, List, [], ◌∷◌, ◌++◌, ◌+◌}
use warden_demo_workload.Common.Models.{
  OrderReady, CourierAvailable, SettlementInput, CandidateInput, Degradation,
}
use warden_demo_workload.Common.SearchAttributes.{Pair}
use warden_demo_workload.Common.Retry.{RetryPolicy}
use warden_demo_workload.Python.Value.{Value}

-- A signal to another workflow, by its name and payload.
pub data SignalCall : Type 0 where
  courier_assigned : String → SignalCall
  order_ready : OrderReady → SignalCall
  courier_available : CourierAvailable → SignalCall

pub data ChildInput : Type 0 where
  settlement : SettlementInput → ChildInput
  candidate : CandidateInput → ChildInput

-- The arguments of `start_child_workflow` and `execute_child_workflow`.
pub record Child : Type 0 where
  pub workflow : String
  pub input : ChildInput
  pub id : String
  pub task_queue : String
  pub abandoned : Bool
  pub attributes : List Pair

-- What a run asks of the server, in order. Times are in seconds.
pub data Command : Type 0 where
  activity : String → List Value → Command
  local_activity : String → List Value → Command
  timer : ℕ → Command
  wait_until : ℕ → Command
  signal : String → SignalCall → Command
  upsert : List Pair → Command
  child : Child → Command

-- One attempt of an activity: how it ended, and how long it took.
pub data Ending (A : Type 0) : Type 0 where
  completed : A → Ending A
  retryable non_retryable : Ending A

pub record Attempt (A : Type 0) : Type 0 where
  pub ending : Ending A
  pub seconds : ℕ

-- What `execute_activity` gives the workflow: a result, or an `ActivityError`.
pub data Outcome (A : Type 0) : Type 0 where
  ok : A → Outcome A
  failed : Outcome A

-- An attempt that the server makes again: a retryable error, or the start-to-close timeout.
abbrev pub IsTransient : {A : Type 0} → ℕ → Attempt A → Type 0
IsTransient timeout a = (a.ending ≡ retryable) ⊎ (timeout < a.seconds)

-- The attempts up to `k` are all transient.
abbrev pub TransientBelow : {A : Type 0} → ℕ → (ℕ → Attempt A) → ℕ → Type 0
TransientBelow timeout attempts k = (j : ℕ) → j < k → IsTransient timeout (attempts j)

-- The server's side of `execute_activity`, for a policy with a limit on attempts: it makes
-- attempts until one is not transient, or until the policy's limit.
pub record Server : Type 1 where
  pub execute : {A : Type 0} → RetryPolicy → ℕ → (ℕ → Attempt A) → Outcome A
  pub completes :
      {A : Type 0} (policy : RetryPolicy) (timeout : ℕ) (attempts : ℕ → Attempt A) (k : ℕ) (v : A)
      → k < policy.maximum_attempts
      → TransientBelow timeout attempts k
      → (attempts k).ending ≡ completed v
      → (attempts k).seconds ≤ timeout
      → execute policy timeout attempts ≡ ok v
  pub stops :
      {A : Type 0} (policy : RetryPolicy) (timeout : ℕ) (attempts : ℕ → Attempt A) (k : ℕ)
      → k < policy.maximum_attempts
      → TransientBelow timeout attempts k
      → (attempts k).ending ≡ non_retryable
      → (attempts k).seconds ≤ timeout
      → execute policy timeout attempts ≡ failed
  pub exhausts :
      {A : Type 0} (policy : RetryPolicy) (timeout : ℕ) (attempts : ℕ → Attempt A)
      → TransientBelow timeout attempts policy.maximum_attempts
      → execute policy timeout attempts ≡ failed

-- The upserts among the commands: each one is a billable action.
abbrev pub upserts : List Command → List (List Pair)
upserts [] = []
upserts (upsert pairs ∷ log) = pairs ∷ upserts log
upserts (activity a xs ∷ log) = upserts log
upserts (local_activity a xs ∷ log) = upserts log
upserts (timer n ∷ log) = upserts log
upserts (wait_until n ∷ log) = upserts log
upserts (signal i s ∷ log) = upserts log
upserts (child c ∷ log) = upserts log
