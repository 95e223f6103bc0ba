-- ===== src/Deliveries/Outings/Tests.antt =====
-- Two shifts and their region.
use warden_demo_workload.Prelude.{◌≤◌, refl, String, true, false, List, [], ◌∷◌, arith}
use warden_demo_workload.Common.Constants.{dispatch_id}
use warden_demo_workload.Common.Models.{CourierState, fresh_region}
use warden_demo_workload.Workflows.Courier
use warden_demo_workload.Workflows.Courier.Lifetime as CourierLifetime
use warden_demo_workload.Workflows.Dispatch
use warden_demo_workload.Workflows.Dispatch.Lifetime.{lifetime}
use warden_demo_workload.Workflows.Dispatch.Supply.{sent}
use warden_demo_workload.Deliveries.Outings.{Shift, occurrences, jobs, lifetime-outings}

abbrev state : String → CourierState
state id = record {
  courier_id = id;
  region = "us-west";
  assignments = 0;
  pings = 0;
  vehicle_type = "bike";
}

-- An assignment, which is accepted, and the report of it.
abbrev days : List Courier.Activation
days =
    record { history = 10; signals = Courier.assignment "a1" ∷ []; done = false }
    ∷ record { history = 20; signals = []; done = true }
    ∷ []

abbrev shifts : List Shift
shifts =
    record { state = state "1-0a1b2c"; days = days }
    ∷ record { state = state "2-0d1e2f"; days = [] }
    ∷ []

abbrev ready : String → Dispatch.Signal
ready id = Dispatch.order_ready (record { order_id = id; order_wf_id = id; region = "us-west" })

-- Two orders, for which one courier has reported.
abbrev visits : List Dispatch.Activation
visits =
    record {
      history = 10;
      signals =
          Dispatch.courier_available (record { courier_id = "1-0a1b2c"; region = "us-west" })
          ∷ ready "o1"
          ∷ ready "o2"
          ∷ [];
      done = false;
    }
    ∷ record { history = 20; signals = []; done = true }
    ∷ record { history = 30; signals = []; done = true }
    ∷ record { history = 40; signals = []; done = true }
    ∷ []

lifetime-outings_example :
    let e = (Dispatch.begin (fresh_region "us-west") Dispatch.init).0 in
    occurrences "1-0a1b2c" (sent (lifetime visits e).1) ≤ jobs "us-west" "1-0a1b2c" shifts
unfolding Courier.activate CourierLifetime.lifetime dispatch_id
lifetime-outings_example = lifetime-outings "us-west" "1-0a1b2c" shifts visits refl (omega arith)
