-- ===== src/Dashboard.antt =====
-- dashboard/app.py: the estimate of actions for each order, and the route that stops, starts and
-- restarts a worker by one of the supervisors. Dashboard/Controls has the other routes.
pub mod Controls
pub mod Costs
pub mod Routes
pub mod Lifespan
mod Tests
use warden_demo_workload.Prelude.{
  String, Bool, true, false, Option, none, some, ℕ, ◌+◌, ◌==◌, if◌then◌else◌,
}
use warden_demo_workload.Common.Constants.{all_task_queues}
use warden_demo_workload.Common.SearchAttributes.{order_stage_upsert_actions}
use warden_demo_workload.Python.Dict.{get}
use warden_demo_workload.Python.Value.{PyError, Attempt}
use warden_demo_workload.Workers.Backend.{Backend}
use warden_demo_workload.Workers.Supervisor.{is_in}

-- What `health` adds for the upserts of one order.
unfoldable pub estimated_upserts : Bool → ℕ
estimated_upserts tracking = if tracking then order_stage_upsert_actions + 1 else 0

-- `actions_per_order` in `health`.
unfoldable pub actions_per_order : Bool → ℕ
unfolding estimated_upserts
actions_per_order tracking = 10 + estimated_upserts tracking

-- What a request to `worker_action` comes to: an HTTP error, an exception, or the queue's state.
pub data Response : Type 0 where
  not_found bad_request : Response
  failed : PyError → Response
  reported : Option String → Response

module _ (b : Backend) where
  abbrev pub report : String → b.State → Response × b.State
  unfolding get
  report queue s = (reported (get (b.states s) queue), s)

  abbrev pub report_attempt : String → Attempt b.State → Response × b.State
  report_attempt queue (none, s) = report queue s
  report_attempt queue (some e, s) = (failed e, s)

  unfoldable pub worker_action : String → String → b.State → Response × b.State
  unfolding report
  worker_action queue action s =
      if is_in queue all_task_queues
      then (if action == "stop"
          then report_attempt queue (b.stop queue s)
          else if action == "start"
          then report_attempt queue (b.start queue s)
          else if action == "restart"
          then report_attempt queue (b.restart queue s)
          else (bad_request, s))
      else (not_found, s)
