-- ===== src/Dashboard/Tests.antt =====
-- Routes and costs on concrete requests.
use warden_demo_workload.Prelude.{
  ℕ, ◌≡◌, ◌+◌, refl, true, false, [], if◌then◌else◌, length, arith, inl,
}
use warden_demo_workload.Prelude.Int.{pos}
use warden_demo_workload.Common.Models.{OrderInput, SettlementInput}
use warden_demo_workload.Control.Cache.{is_enabled}
use warden_demo_workload.Control.Schema.{default_scenarios}
use warden_demo_workload.Python.Dict.{get}
use warden_demo_workload.Python.Reference.{text_conversions}
use warden_demo_workload.Temporal.{ok, upserts}
use warden_demo_workload.Temporal.Reference.{reference_server}
use warden_demo_workload.Workflows.Order.{Turn, init, run}
use warden_demo_workload.Workflows.Order.Delivers.{run-Delivered}
use warden_demo_workload.Workflows.Settlement.{settle}
use warden_demo_workload.Dashboard.{estimated_upserts}
use warden_demo_workload.Dashboard.Costs.{estimated_upserts_lem}

abbrev untracked : OrderInput
untracked = record {
  order_id = "0123456789ab";
  region = "us-west";
  restaurant_id = "rest-1";
  fail_at_restaurant = false;
  slow_validate = false;
  force_timeout = false;
  priority_tier = "standard";
  order_value_usd = pos 12500000;
  surge_pricing = false;
  dietary_tags = [];
  delivery_notes = "";
  track_stages = false;
}

abbrev settlement : SettlementInput
settlement = record {
  order_id = "0123456789ab";
  region = "us-west";
  restaurant_id = "rest-1";
  courier_id = "c7";
}

abbrev calm_turns : ℕ → Turn
unfolding default_scenarios
calm_turns n = record {
  signals = [];
  sights = λ k. record { cache = default_scenarios; draw = pos 0 };
  accepted = true;
  now = n;
}

untracked_delivered :
    (run reference_server text_conversions "order-1" untracked (init calm_turns 0)).0
    ≡ ok "delivered"
unfolding is_enabled get calm_turns
untracked_delivered =
    (run-Delivered reference_server text_conversions "order-1" untracked calm_turns 0 refl refl refl
      (λ n. (0, omega arith, inl refl)) (λ n. refl)).0

estimated_upserts_lem_example :
    let r = run reference_server text_conversions "order-1" untracked (init calm_turns 0) in
    length (upserts r.1.log) + length (upserts (settle (pos 4750000) settlement).1)
    ≡ estimated_upserts false + (if false then 0 else 1)
estimated_upserts_lem_example =
    estimated_upserts_lem reference_server text_conversions "order-1" untracked calm_turns 0
      (pos 4750000) settlement untracked_delivered
