-- ===== src/Workers/Registry/Tests.antt =====
-- The workers on one run of each workflow.
use warden_demo_workload.Prelude.{ℕ, String, true, false, List, [], ◌∷◌}
use warden_demo_workload.Prelude.Int.{pos}
use warden_demo_workload.Python.Value.{Micro}
use warden_demo_workload.Python.Reference.{text_conversions}
use warden_demo_workload.Common.Constants.{
  order_tq, dispatch_tq, courier_tq, batch_tq, settlement_tq, menu_tq,
}
use warden_demo_workload.Common.Models.{
  OrderInput, CourierState, BatchInput, CandidateInput, SettlementInput, MenuSyncState,
  fresh_region,
}
use warden_demo_workload.Control.Schema.{default_scenarios}
use warden_demo_workload.Temporal.Reference.{reference_server}
use warden_demo_workload.Workflows.Batch
use warden_demo_workload.Workflows.Batch.{evaluate}
use warden_demo_workload.Workflows.Courier
use warden_demo_workload.Workflows.Courier.Lifetime as CourierLifetime
use warden_demo_workload.Workflows.Dispatch
use warden_demo_workload.Workflows.Dispatch.Lifetime as DispatchLifetime
use warden_demo_workload.Workflows.Menu.{sync}
use warden_demo_workload.Workflows.Order
use warden_demo_workload.Workflows.Order.{Turn}
use warden_demo_workload.Workflows.Settlement.{settle}
use warden_demo_workload.Workers.Registry.{AllServed}
use warden_demo_workload.Workers.Registry.Hosting.{run-AllServed}

abbrev order : OrderInput
order = record {
  order_id = "o1";
  region = "us-west";
  restaurant_id = "rest-1";
  fail_at_restaurant = false;
  slow_validate = true;
  force_timeout = false;
  priority_tier = "standard";
  order_value_usd = pos 20000000;
  surge_pricing = false;
  dietary_tags = [];
  delivery_notes = "";
  track_stages = true;
}

abbrev turns : ℕ → Turn
unfolding default_scenarios
turns n = record {
  signals = [];
  sights = λ k. record { cache = default_scenarios; draw = pos 0 };
  accepted = true;
  now = n;
}

-- A region's only run assigns a courier and ends by continue-as-new, and the next one waits.
abbrev visits : List Dispatch.Activation
visits =
    record {
      history = 10;
      signals =
          Dispatch.order_ready
            (record { order_id = "o1"; order_wf_id = "order-1"; region = "us-west" })
          ∷ Dispatch.courier_available (record { courier_id = "c1"; region = "us-west" })
          ∷ [];
      done = false;
    }
    ∷ record { history = 1501; signals = []; done = true }
    ∷ record { history = 5; signals = []; done = true }
    ∷ []

abbrev shift : CourierState
shift = record {
  courier_id = "7";
  region = "us-west";
  assignments = 0;
  pings = 0;
  vehicle_type = "bike";
}

abbrev days : List Courier.Activation
days =
    record { history = 10; signals = Courier.assignment "o1" ∷ []; done = false }
    ∷ record { history = 20; signals = []; done = true }
    ∷ []

abbrev even : String → Micro
even id = pos 500000

abbrev batch : BatchInput
batch = record { batch_id = "b1"; mode = "normal"; children = pos 10; iterations = pos 0 }

abbrev candidate : CandidateInput
candidate = record { batch_id = "b1"; candidate_id = "b1-0" }

abbrev settlement : SettlementInput
settlement = record {
  order_id = "o1";
  region = "us-west";
  restaurant_id = "rest-1";
  courier_id = "c1";
}

abbrev menu : MenuSyncState
menu = record { restaurant_id = "rest-1"; runs = 3 }

run-AllServed_example :
    AllServed order_tq
      (Order.run reference_server text_conversions "order-1" order (Order.init turns 0)).1.log
    × AllServed dispatch_tq (Dispatch.begin (fresh_region "us-west") Dispatch.init).1
    × AllServed dispatch_tq
        (DispatchLifetime.lifetime visits
          (Dispatch.begin (fresh_region "us-west") Dispatch.init).0).1
    × AllServed courier_tq (CourierLifetime.lifetime days (Courier.begin shift Courier.init)).1
    × AllServed batch_tq (Batch.run even batch).1
    × AllServed batch_tq (evaluate candidate).1
    × AllServed settlement_tq (settle (pos 900000) settlement).1
    × AllServed menu_tq (sync menu).log
run-AllServed_example =
    run-AllServed reference_server text_conversions "order-1" order turns 0 (fresh_region "us-west")
      visits shift days even batch candidate (pos 900000) settlement menu
