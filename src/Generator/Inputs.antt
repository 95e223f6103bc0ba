-- ===== src/Generator/Inputs.antt =====
-- generator.py: the inputs and start attributes that `order_loop`, `batch_loop` and `_start_courier`
-- make, from the scenarios and the random draws of one turn.
pub mod Faults
mod Tests
use warden_demo_workload.Prelude.{
  ℕ, String, Bool, true, false, Option, none, some, List, [], ◌∷◌, ◌++◌, ◌==◌, if◌then◌else◌,
}
use warden_demo_workload.Prelude.Int.{ℤ, pos, ltb_ℤ}
use warden_demo_workload.Common.Models.{OrderInput, CourierState, BatchInput}
use warden_demo_workload.Common.SearchAttributes
use warden_demo_workload.Common.SearchAttributes.{
  Pair, AttributeValue, set, delivery_region, stage_placed, order_stage,
}
use warden_demo_workload.Python.Dict.{get}
use warden_demo_workload.Python.Value.{
  Micro, float, int, Conversions, Result, ok, raised, ◌>>=◌, to_float, to_int,
}
use warden_demo_workload.Control.Schema.{
  Scenarios, workflow_failure, timeout_spike, fanout_storm, close_history_bloat,
}
use warden_demo_workload.Control.Cache.{is_enabled, get_params}
use warden_demo_workload.Activities.{param_or}
use warden_demo_workload.Workflows.Batch.{effective_fanout}

-- What one turn of `order_loop` draws.
pub record Draws : Type 0 where
  pub region : String
  pub restaurant : String
  pub order_id : String
  pub failure : Micro
  pub timeout : Micro
  pub tier : String
  pub value : Micro
  pub surge : Micro
  pub tags : List String
  pub notes : String

-- `enabled(name) and random.random() < float(params(name).get(param, default))`
unfoldable pub hits : Conversions → Scenarios → String → String → Micro → Micro → Result Bool
hits cv scenarios name param default draw =
    if is_enabled scenarios name
    then (to_float cv (param_or (get (get_params scenarios name) param) (float default)) >>= λ p.
        ok (ltb_ℤ draw p))
    else ok false

-- The order of one turn, and its execution timeout in seconds.
unfoldable pub order_input : Conversions → Bool → Scenarios → Draws → Result (OrderInput × Option ℕ)
unfolding hits
order_input cv tracking scenarios d =
    hits cv scenarios workflow_failure "failure_probability" (pos 400000) d.failure >>= λ fails.
    hits cv scenarios timeout_spike "probability" (pos 500000) d.timeout >>= λ slow. ok (
      record {
        order_id = d.order_id;
        region = d.region;
        restaurant_id = d.restaurant;
        fail_at_restaurant = fails;
        slow_validate = false;
        force_timeout = slow;
        priority_tier = d.tier;
        order_value_usd = d.value;
        surge_pricing = ltb_ℤ d.surge (pos 250000);
        dietary_tags = d.tags;
        delivery_notes = d.notes;
        track_stages = tracking;
      },
      if slow then some 10 else none,
    )

abbrev tagged : List String → List Pair
tagged [] = []
tagged (t ∷ tags) = set SearchAttributes.dietary_tags (AttributeValue.keyword_list (t ∷ tags)) ∷ []

-- `_order_attributes`
unfoldable pub order_attributes : OrderInput → List Pair
order_attributes inp =
    (set delivery_region (AttributeValue.text inp.region)
      ∷ set SearchAttributes.restaurant_id (AttributeValue.text inp.restaurant_id)
      ∷ set order_stage (AttributeValue.text stage_placed)
      ∷ set SearchAttributes.priority_tier (AttributeValue.text inp.priority_tier)
      ∷ set SearchAttributes.order_value_usd (AttributeValue.double inp.order_value_usd)
      ∷ set SearchAttributes.is_surge_pricing (AttributeValue.bool inp.surge_pricing)
      ∷ [])
    ++ tagged inp.dietary_tags
    ++ (if inp.delivery_notes == ""
        then []
        else set SearchAttributes.delivery_notes (AttributeValue.text inp.delivery_notes) ∷ [])

-- The batch of one turn of `batch_loop`; `size` is its draw from 5 to 10.
unfoldable pub batch_input : Conversions → Scenarios → String → ℤ → Result BatchInput
batch_input cv scenarios batch_id size =
    if is_enabled scenarios fanout_storm
    then (to_int cv (param_or (get (get_params scenarios fanout_storm) "children") (int (pos 400)))
        >>= λ n. ok (record {
          batch_id = batch_id;
          mode = "fanout_storm";
          children = n;
          iterations = pos 700;
        }))
    else if is_enabled scenarios close_history_bloat
    then (to_int cv
          (param_or (get (get_params scenarios close_history_bloat) "iterations") (int (pos 700)))
        >>= λ n. ok (record {
          batch_id = batch_id;
          mode = "sequential_bloat";
          children = pos 6;
          iterations = n;
        }))
    else ok (record { batch_id = batch_id; mode = "normal"; children = size; iterations = pos 700 })

-- The attributes that a batch starts with.
unfoldable pub batch_attributes : BatchInput → List Pair
unfolding effective_fanout
batch_attributes inp =
    set SearchAttributes.batch_mode (AttributeValue.text inp.mode)
    ∷ set SearchAttributes.fanout_size (AttributeValue.int (effective_fanout inp))
    ∷ []

-- The shift that `_start_courier` starts, and its attributes.
unfoldable pub courier_input : String → String → String → CourierState
courier_input cid region vehicle = record {
  courier_id = cid;
  region = region;
  assignments = 0;
  pings = 0;
  vehicle_type = vehicle;
}

unfoldable pub courier_attributes : String → String → String → List Pair
courier_attributes cid region vehicle =
    set SearchAttributes.courier_id (AttributeValue.text cid)
    ∷ set delivery_region (AttributeValue.text region)
    ∷ set SearchAttributes.vehicle_type (AttributeValue.text vehicle)
    ∷ []
