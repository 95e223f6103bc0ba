-- ===== src/Workers/Registry/OrderCommands.antt =====
-- What `OrderWorkflow.run` asks of the workers (workflows/order.py, workers/registry.py).
use warden_demo_workload.Prelude.{ℕ, ◌≡◌, refl, String, true}
use warden_demo_workload.Common.Constants.{order_tq}
use warden_demo_workload.Common.Models.{OrderInput}
use warden_demo_workload.Python.Value.{Conversions}
use warden_demo_workload.Temporal.{Command, Server}
use warden_demo_workload.Workers.Registry.{AllServed, serves, hosts_activity, hosts_workflow}
use warden_demo_workload.Workflows.Order.{Turn, init, settlement_child, run}
use warden_demo_workload.Workflows.Order.Commands.{Covers, run-All}

abbrev IsServed : Command → Type 0
IsServed c = serves order_tq c ≡ true

serves-Covers : (inp : OrderInput) → Covers IsServed inp
unfolding hosts_activity hosts_workflow settlement_child
serves-Covers inp = record {
  timers = λ n. refl;
  validate = λ slow. refl;
  pay = refl;
  send = λ fail. refl;
  accepted = refl;
  delivered = refl;
  settle = λ courier. refl;
}

-- Whatever its environment does, an order asks only for what the workers host.
pub run-AllServed :
    (server : Server) (cv : Conversions) (workflow_id : String) (inp : OrderInput)
    (turns : ℕ → Turn) (now : ℕ)
    → AllServed order_tq (run server cv workflow_id inp (init turns now)).1.log
unfolding hosts_activity
run-AllServed server cv workflow_id inp turns now =
    run-All IsServed server cv workflow_id inp (serves-Covers inp) turns now refl refl refl
      (λ pairs. refl)
