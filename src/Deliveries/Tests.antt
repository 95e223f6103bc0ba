-- ===== src/Deliveries/Tests.antt =====
-- Two orders and their region.
use warden_demo_workload.Prelude.{
  map, arith, ℕ, ◌≡◌, ◌++◌, refl, String, true, false, List, [], ◌∷◌,
}
use warden_demo_workload.Prelude.Int.{pos}
use warden_demo_workload.Common.Constants.{dispatch_id}
use warden_demo_workload.Common.Models.{OrderInput, fresh_region}
use warden_demo_workload.Python.Reference.{text_conversions}
use warden_demo_workload.Python.Dict.{get}
use warden_demo_workload.Control.Cache.{is_enabled}
use warden_demo_workload.Control.Schema.{default_scenarios}
use warden_demo_workload.Temporal.Reference.{reference_server}
use warden_demo_workload.Workflows.Order.{Turn, run, accept, after, collect, deliver}
use warden_demo_workload.Activities.{
  validate_order, authorize_payment, send_to_restaurant, poll_restaurant_accept, mark_picked_up,
  mark_delivered,
}
use warden_demo_workload.Workflows.Dispatch.{
  Activation, order_ready, courier_available, init, begin,
}
use warden_demo_workload.Workflows.Dispatch.Queue.{answers, queue, all_arrivals}
use warden_demo_workload.Workflows.Dispatch.Lifetime.{lifetime}
use warden_demo_workload.Deliveries.{
  Placed, mail, accepted_in, lifetime-accepted_in, lifetime-answers_accepted,
}
use warden_demo_workload.Workflows.Dispatch.Progress.{idle}

abbrev order : String → OrderInput
order region = record {
  order_id = "o1";
  region = region;
  restaurant_id = "rest-1";
  fail_at_restaurant = false;
  slow_validate = false;
  force_timeout = false;
  priority_tier = "standard";
  order_value_usd = pos 20000000;
  surge_pricing = false;
  dietary_tags = [];
  delivery_notes = "";
  track_stages = true;
}

abbrev turns : ℕ → Turn
unfolding default_scenarios
turns n = record {
  signals = [];
  sights = λ k. record { cache = default_scenarios; draw = pos 0 };
  accepted = true;
  now = n;
}

abbrev placed : String → OrderInput → Placed
placed id inp = record { workflow_id = id; input = inp; turns = turns; now = 0 }

-- The second order is of another region, and the restaurant rejects the third.
abbrev orders : List Placed
orders =
    placed "order-1" (order "us-west")
    ∷ placed "order-2" (order "south")
    ∷ placed "order-3" (record (order "us-west") { fail_at_restaurant = true })
    ∷ []

abbrev visits : List Activation
visits =
    record {
      history = 10;
      signals =
          order_ready (record { order_id = "o1"; order_wf_id = "order-1"; region = "us-west" })
          ∷ courier_available (record { courier_id = "c1"; region = "us-west" })
          ∷ [];
      done = false;
    }
    ∷ record { history = 20; signals = []; done = true }
    ∷ []

visits_bring :
    all_arrivals visits ≡ mail reference_server text_conversions (dispatch_id "us-west") orders
unfolding run reference_server is_enabled get turns dispatch_id accept validate_order
    authorize_payment after send_to_restaurant poll_restaurant_accept collect mark_picked_up deliver
    mark_delivered
visits_bring = refl

lifetime-accepted_in_example :
    let (e, commands) = lifetime visits (begin (fresh_region "us-west") init).0 in
    answers commands ++ queue e ≡ accepted_in reference_server text_conversions "us-west" orders
lifetime-accepted_in_example =
    lifetime-accepted_in reference_server text_conversions "us-west" orders visits visits_bring

lifetime-answers_accepted_example :
    let (e, commands) = lifetime visits (begin (fresh_region "us-west") init).0 in
    let (e', more) = lifetime (map idle (30 ∷ [])) e in
    (answers commands ++ answers more
      ≡ accepted_in reference_server text_conversions "us-west" orders)
    × (queue e' ≡ [])
unfolding lifetime begin
lifetime-answers_accepted_example =
    lifetime-answers_accepted reference_server text_conversions "us-west" orders visits (30 ∷ [])
      visits_bring (omega arith)
