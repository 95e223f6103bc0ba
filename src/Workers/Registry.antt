-- ===== src/Workers/Registry.antt =====
-- workers/registry.py: which workflows and activities each worker hosts.
pub mod OrderCommands
pub mod DispatchCommands
pub mod CourierCommands
pub mod Hosting
mod Tests
use warden_demo_workload.Prelude.{
  All, ◌≡◌, String, Option, none, some, List, [], ◌∷◌, Bool, false, true,
}
use warden_demo_workload.Python.Dict.{Dict, get}
use warden_demo_workload.Common.Constants.{
  order_tq, dispatch_tq, courier_tq, batch_tq, settlement_tq, menu_tq, control_tq,
}
use warden_demo_workload.Temporal.{
  Command, activity, local_activity, timer, wait_until, signal, upsert, child,
}
use warden_demo_workload.Workers.Supervisor.{is_in}

-- A pair of lists: the workflows and the activities, by name.
pub record Hosted : Type 0 where
  pub workflows : List String
  pub activities : List String

abbrev hosted : List String → List String → Hosted
hosted workflows activities = record { workflows = workflows; activities = activities }

-- `REGISTRY`
unfoldable pub registry : Dict Hosted
registry =
    (
      order_tq,
      hosted ("OrderWorkflow" ∷ []) (
          "validate_order" ∷ "authorize_payment" ∷ "send_to_restaurant" ∷ "poll_restaurant_accept"
          ∷ "mark_picked_up" ∷ "mark_delivered" ∷ []),
    )
    ∷ (dispatch_tq, hosted ("DispatchWorkflow" ∷ []) ("assign_courier" ∷ "noop_marker" ∷ []))
    ∷ (courier_tq, hosted ("CourierShiftWorkflow" ∷ []) ("accept_assignment" ∷ []))
    ∷ (
      batch_tq,
      hosted ("BatchAssignmentWorkflow" ∷ "CandidateEvalWorkflow" ∷ [])
          ("score_candidate" ∷ "tiny_eval" ∷ []),
    )
    ∷ (
      settlement_tq,
      hosted ("SettlementWorkflow" ∷ []) ("capture_payment" ∷ "compute_payout" ∷ []),
    )
    ∷ (
      menu_tq,
      hosted ("MenuSyncWorkflow" ∷ []) ("fetch_menu" ∷ "refresh_menu" ∷ "publish_menu" ∷ []),
    )
    ∷ (control_tq, hosted ("DemoControlWorkflow" ∷ []) [])
    ∷ []

-- Whether the worker of a queue hosts a workflow or an activity.
abbrev in_workflows : Option Hosted → String → Bool
in_workflows none name = false
in_workflows (some h) name = is_in name h.workflows

abbrev in_activities : Option Hosted → String → Bool
in_activities none name = false
in_activities (some h) name = is_in name h.activities

unfoldable pub hosts_workflow : String → String → Bool
unfolding registry get
hosts_workflow queue name = in_workflows (get registry queue) name

unfoldable pub hosts_activity : String → String → Bool
unfolding registry get
hosts_activity queue name = in_activities (get registry queue) name

-- Whether a worker hosts what a command asks for: an activity, on the worker of the workflow's own
-- queue, and a child's workflow, on the worker of the child's queue.
abbrev pub serves : String → Command → Bool
serves queue (activity name arguments) = hosts_activity queue name
serves queue (local_activity name arguments) = hosts_activity queue name
serves queue (child c) = hosts_workflow c.task_queue c.workflow
serves queue (timer n) = true
serves queue (wait_until n) = true
serves queue (signal id call) = true
serves queue (upsert pairs) = true

-- Every command of a run on the queue is served.
abbrev pub AllServed : String → List Command → Type 0
AllServed queue = All (λ c. serves queue c ≡ true)
