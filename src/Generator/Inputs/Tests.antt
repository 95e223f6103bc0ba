-- ===== src/Generator/Inputs/Tests.antt =====
-- Inputs for concrete draws.
use warden_demo_workload.Prelude.{
  ℕ, ◌≤◌, refl, true, false, none, String, [], ◌∷◌, arith, inl, ◌≡◌, Option,
}
use warden_demo_workload.Prelude.Int.{pos}
use warden_demo_workload.Common.Models.{BatchInput, OrderInput}
use warden_demo_workload.Control.Cache.{is_enabled}
use warden_demo_workload.Control.Schema.{default_scenarios}
use warden_demo_workload.Python.Dict.{get}
use warden_demo_workload.Python.Reference.{text_conversions}
use warden_demo_workload.Python.Value.{Micro}
use warden_demo_workload.Temporal.Reference.{reference_server}
use warden_demo_workload.Workflows.Batch.{run}
use warden_demo_workload.Workflows.Batch.Fanout.{children}
use warden_demo_workload.Workflows.Order
use warden_demo_workload.Workflows.Order.{Turn, init}
use warden_demo_workload.Workflows.Order.Delivers.{Delivered}
use warden_demo_workload.Generator.Inputs.{Draws, hits, order_input, batch_input}
use warden_demo_workload.Generator.Inputs.Faults.{batch_input-run, order_input-run}

abbrev batch : BatchInput
batch = record { batch_id = "b1"; mode = "normal"; children = pos 10; iterations = pos 700 }

abbrev half : String → Micro
half id = pos 500000

batch_input-run_example : children (run half batch).1 ≤ 8
unfolding batch_input is_enabled get default_scenarios
batch_input-run_example =
    batch_input-run text_conversions default_scenarios "b1" (pos 10) batch half refl refl

abbrev draws : Draws
draws = record {
  region = "us-west";
  restaurant = "rest-3";
  order_id = "0123456789ab";
  failure = pos 100000;
  timeout = pos 900000;
  tier = "plus";
  value = pos 20500000;
  surge = pos 700000;
  tags = "vegan" ∷ [];
  notes = "";
}

abbrev made : OrderInput
made = record {
  order_id = "0123456789ab";
  region = "us-west";
  restaurant_id = "rest-3";
  fail_at_restaurant = false;
  slow_validate = false;
  force_timeout = false;
  priority_tier = "plus";
  order_value_usd = pos 20500000;
  surge_pricing = false;
  dietary_tags = "vegan" ∷ [];
  delivery_notes = "";
  track_stages = true;
}

abbrev quiet_turns : ℕ → Turn
unfolding default_scenarios
quiet_turns n = record {
  signals = [];
  sights = λ k. record { cache = default_scenarios; draw = pos 0 };
  accepted = true;
  now = n;
}

order_input-run_example :
    (◌≡◌ {A = Option ℕ} none none)
    × Delivered made "order-1" quiet_turns 0
        (Order.run reference_server text_conversions "order-1" made (init quiet_turns 0))
unfolding order_input hits is_enabled get default_scenarios quiet_turns
order_input-run_example =
    order_input-run text_conversions true default_scenarios draws made none reference_server
      "order-1" quiet_turns 0 refl refl refl (λ n. (0, omega arith, inl refl)) (λ n. refl)
