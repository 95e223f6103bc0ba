-- ===== src/Workers/Registry/Hosting.antt =====
-- What the workflows ask of the workers, against what the workers host (workers/registry.py).
use warden_demo_workload.Prelude.{ℕ, ◌≡◌, refl, String, true, List, [], ◌∷◌, map, ◌==◌}
use warden_demo_workload.Prelude.Int.{pos, ℤ}
use warden_demo_workload.Common.Constants.{
  order_tq, dispatch_tq, courier_tq, batch_tq, settlement_tq, menu_tq, all_task_queues,
}
use warden_demo_workload.Common.Models.{
  OrderInput, DispatchState, CourierState, BatchInput, CandidateInput, SettlementInput,
  MenuSyncState,
}
use warden_demo_workload.Python.Value.{Micro, int}
use warden_demo_workload.Temporal.{Command, activity, child}
use warden_demo_workload.Workers.Registry.{
  registry, serves, AllServed, hosts_activity, hosts_workflow,
}
use warden_demo_workload.Temporal.{Server}
use warden_demo_workload.Python.Value.{Conversions}
use warden_demo_workload.Prelude.{Bool, false, if◌then◌else◌}
use warden_demo_workload.Workflows.Batch
use warden_demo_workload.Workflows.Order
use warden_demo_workload.Workflows.Order.{Turn}
use warden_demo_workload.Workflows.Dispatch
use warden_demo_workload.Workflows.Dispatch.Lifetime as DispatchLifetime
use warden_demo_workload.Workflows.Courier
use warden_demo_workload.Workflows.Courier.Lifetime as CourierLifetime
use warden_demo_workload.Workers.Registry.OrderCommands
use warden_demo_workload.Workers.Registry.DispatchCommands.{begin-lifetime-AllServed}
use warden_demo_workload.Workers.Registry.CourierCommands.{lifetime-AllServed}
use warden_demo_workload.Workflows.Batch.{
  candidate_child, effective_fanout, fan_out, evaluate, range,
}
use warden_demo_workload.Workflows.Settlement.{settle}
use warden_demo_workload.Workflows.Menu.{sync}

-- The registry has an entry for each task queue, in the same order, and no other.
pub registry-queues : map (λ e. e.0) registry ≡ all_task_queues
unfolding registry
registry-queues = refl

All-map :
    {A : Type 0} (f : A → Command) (queue : String) (xs : List A)
    → ((x : A) → serves queue (f x) ≡ true)
    → AllServed queue (map f xs)
All-map f queue [] h = tt
All-map f queue (x ∷ xs) h = (h x, All-map f queue xs h)

child-served :
    (inp : BatchInput) (n : ℤ) (i : ℕ) → serves batch_tq (child (candidate_child inp n i)) ≡ true
unfolding candidate_child hosts_workflow
child-served inp n i = refl

tiny_eval-served : (i : ℕ) → serves batch_tq (activity "tiny_eval" (int (pos i) ∷ [])) ≡ true
unfolding hosts_activity
tiny_eval-served i = refl

if-AllServed :
    {R : Type 0} (queue : String) (b : Bool) (x y : R × List Command)
    → AllServed queue x.1
    → AllServed queue y.1
    → AllServed queue (if b then x else y).1
if-AllServed queue true x y h k = h
if-AllServed queue false x y h k = k

batch-AllServed :
    (scores : String → Micro) (inp : BatchInput) → AllServed batch_tq (Batch.run scores inp).1
unfolding Batch.run fan_out
batch-AllServed scores inp =
    if-AllServed batch_tq (inp.mode == "sequential_bloat") _
      (fan_out scores inp (effective_fanout inp))
      (All-map _ batch_tq (range inp.iterations) tiny_eval-served)
      (All-map _ batch_tq (range (effective_fanout inp)) (child-served inp (effective_fanout inp)))

-- The workers host every activity that a batch, a candidate, a settlement or a menu's run asks for,
-- on the run's own queue, and every child that they start, on the child's queue.
short_runs-AllServed :
    (scores : String → Micro) (batch : BatchInput) (candidate : CandidateInput) (payout : Micro)
    (settlement : SettlementInput) (menu : MenuSyncState)
    → AllServed batch_tq (Batch.run scores batch).1
      × AllServed batch_tq (evaluate candidate).1
      × AllServed settlement_tq (settle payout settlement).1
      × AllServed menu_tq (sync menu).log
unfolding evaluate settle sync hosts_activity
short_runs-AllServed scores batch candidate payout settlement menu = (
  batch-AllServed scores batch,
  (refl, tt),
  (refl, (refl, (refl, tt))),
  (refl, (refl, (refl, (refl, tt)))),
)

-- No workflow waits for a worker that does not exist: whatever the inputs and the environment, each
-- activity that an order, a region, a shift, a batch, a candidate, a settlement or a menu's run asks
-- for is hosted by the worker of the run's own queue, over the whole life of a region and a shift,
-- and the workflow of each child that they start by the worker of the child's queue.
pub run-AllServed :
    (server : Server) (cv : Conversions) (workflow_id : String) (order : OrderInput)
    (turns : ℕ → Turn) (now : ℕ) (region : DispatchState) (visits : List Dispatch.Activation)
    (shift : CourierState) (days : List Courier.Activation) (scores : String → Micro)
    (batch : BatchInput) (candidate : CandidateInput) (payout : Micro)
    (settlement : SettlementInput) (menu : MenuSyncState)
    → AllServed order_tq (Order.run server cv workflow_id order (Order.init turns now)).1.log
      × AllServed dispatch_tq (Dispatch.begin region Dispatch.init).1
      × AllServed dispatch_tq
          (DispatchLifetime.lifetime visits (Dispatch.begin region Dispatch.init).0).1
      × AllServed courier_tq (CourierLifetime.lifetime days (Courier.begin shift Courier.init)).1
      × AllServed batch_tq (Batch.run scores batch).1
      × AllServed batch_tq (evaluate candidate).1
      × AllServed settlement_tq (settle payout settlement).1
      × AllServed menu_tq (sync menu).log
run-AllServed server cv workflow_id order turns now region visits shift days scores batch candidate
      payout settlement menu =
    let (first, later) = begin-lifetime-AllServed region visits in
    let (fans, scored, settled, synced) =
      short_runs-AllServed scores batch candidate payout settlement menu in
    (
      OrderCommands.run-AllServed server cv workflow_id order turns now,
      first,
      later,
      lifetime-AllServed days (Courier.begin shift Courier.init),
      fans,
      scored,
      settled,
      synced,
    )
