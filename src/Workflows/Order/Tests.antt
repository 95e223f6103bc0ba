-- ===== src/Workflows/Order/Tests.antt =====
-- Orders on concrete turns of the environment.
use warden_demo_workload.Prelude.{
  ℕ, ◌≡◌, refl, true, false, [], ◌∷◌, arith, inl, if◌then◌else◌, ltb,
}
use warden_demo_workload.Prelude.Int.{pos}
use warden_demo_workload.Python.Dict.{get}
use warden_demo_workload.Python.Reference.{text_conversions}
use warden_demo_workload.Common.Models.{OrderInput}
use warden_demo_workload.Control.Schema.{default_scenarios}
use warden_demo_workload.Control.Cache.{is_enabled}
use warden_demo_workload.Temporal.{failed, upserts}
use warden_demo_workload.Temporal.Reference.{reference_server}
use warden_demo_workload.Workflows.Order.{Turn, init, run}
use warden_demo_workload.Workflows.Order.Delivers.{Delivered, run-Delivered}
use warden_demo_workload.Workflows.Order.Stages.{Upserts, run-Upserts}
use warden_demo_workload.Workflows.Order.Faults.{run_rejected}

abbrev order : OrderInput
order = record {
  order_id = "0123456789ab";
  region = "us-west";
  restaurant_id = "rest-1";
  fail_at_restaurant = false;
  slow_validate = false;
  force_timeout = true;
  priority_tier = "standard";
  order_value_usd = pos 12500000;
  surge_pricing = false;
  dietary_tags = [];
  delivery_notes = "";
  track_stages = true;
}

abbrev prompt_order : OrderInput
prompt_order = record order { force_timeout = false }

abbrev rejected_order : OrderInput
rejected_order = record order { fail_at_restaurant = true }

-- A courier is assigned in the seventh await.
abbrev turns : ℕ → Turn
unfolding default_scenarios
turns n = record {
  signals = if ltb n 6 then [] else "c7" ∷ [];
  sights = λ k. record { cache = default_scenarios; draw = pos 0 };
  accepted = true;
  now = n;
}

run-Delivered_example :
    Delivered prompt_order "order-1" turns 0
      (run reference_server text_conversions "order-1" prompt_order (init turns 0))
unfolding is_enabled get turns
run-Delivered_example =
    run-Delivered reference_server text_conversions "order-1" prompt_order turns 0 refl refl refl
      (λ n. (0, omega arith, inl refl)) (λ n. refl)

run-Upserts_example :
    Upserts order turns 0 (run reference_server text_conversions "order-1" order (init turns 0))
run-Upserts_example = run-Upserts reference_server text_conversions "order-1" order turns 0

run_rejected_example :
    let r = run reference_server text_conversions "order-1" rejected_order (init turns 0) in
    (r.0 ≡ failed) × (upserts r.1.log ≡ [])
run_rejected_example =
    run_rejected reference_server text_conversions "order-1" rejected_order turns 0 refl
