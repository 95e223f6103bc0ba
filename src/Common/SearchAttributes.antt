-- ===== src/Common/SearchAttributes.antt =====
-- common/search_attributes.py: the typed vocabulary of the visibility store.
use warden_demo_workload.Prelude.{ℕ, String, Bool, List, [], ◌∷◌}
use warden_demo_workload.Prelude.Int.{ℤ}
use warden_demo_workload.Python.Value.{Micro}

pub data IndexedValueType : Type 0 where
  text keyword int double bool datetime keyword_list : IndexedValueType

pub record SearchAttributeKey : Type 0 where
  pub name : String
  pub indexed_value_type : IndexedValueType

abbrev key : String → IndexedValueType → SearchAttributeKey
key n t = record { name = n; indexed_value_type = t }

abbrev pub delivery_region : SearchAttributeKey
delivery_region = key "DeliveryRegion" IndexedValueType.keyword

abbrev pub restaurant_id : SearchAttributeKey
restaurant_id = key "RestaurantId" IndexedValueType.keyword

abbrev pub courier_id : SearchAttributeKey
courier_id = key "CourierId" IndexedValueType.keyword

abbrev pub order_stage : SearchAttributeKey
order_stage = key "OrderStage" IndexedValueType.keyword

abbrev pub priority_tier : SearchAttributeKey
priority_tier = key "PriorityTier" IndexedValueType.keyword

abbrev pub order_value_usd : SearchAttributeKey
order_value_usd = key "OrderValueUsd" IndexedValueType.double

abbrev pub is_surge_pricing : SearchAttributeKey
is_surge_pricing = key "IsSurgePricing" IndexedValueType.bool

abbrev pub promised_delivery_at : SearchAttributeKey
promised_delivery_at = key "PromisedDeliveryAt" IndexedValueType.datetime

abbrev pub dietary_tags : SearchAttributeKey
dietary_tags = key "DietaryTags" IndexedValueType.keyword_list

abbrev pub delivery_notes : SearchAttributeKey
delivery_notes = key "DeliveryNotes" IndexedValueType.text

abbrev pub fleet_status : SearchAttributeKey
fleet_status = key "FleetStatus" IndexedValueType.keyword

abbrev pub pending_order_count : SearchAttributeKey
pending_order_count = key "PendingOrderCount" IndexedValueType.int

abbrev pub vehicle_type : SearchAttributeKey
vehicle_type = key "VehicleType" IndexedValueType.keyword

abbrev pub batch_mode : SearchAttributeKey
batch_mode = key "BatchMode" IndexedValueType.keyword

abbrev pub fanout_size : SearchAttributeKey
fanout_size = key "FanoutSize" IndexedValueType.int

abbrev pub courier_payout_usd : SearchAttributeKey
courier_payout_usd = key "CourierPayoutUsd" IndexedValueType.double

abbrev pub stage_placed : String
stage_placed = "placed"

abbrev pub stage_preparing : String
stage_preparing = "preparing"

abbrev pub stage_awaiting_courier : String
stage_awaiting_courier = "awaiting_courier"

abbrev pub stage_in_transit : String
stage_in_transit = "in_transit"

abbrev pub stage_settling : String
stage_settling = "settling"

abbrev pub all_keys : List SearchAttributeKey
all_keys =
    delivery_region ∷ restaurant_id ∷ courier_id ∷ order_stage ∷ priority_tier ∷ order_value_usd
    ∷ is_surge_pricing ∷ promised_delivery_at ∷ dietary_tags ∷ delivery_notes ∷ fleet_status
    ∷ pending_order_count ∷ vehicle_type ∷ batch_mode ∷ fanout_size ∷ courier_payout_usd ∷ []

abbrev pub order_stage_upsert_actions : ℕ
order_stage_upsert_actions = 3

-- A value of an attribute: times are in seconds.
pub data AttributeValue : Type 0 where
  text : String → AttributeValue
  int : ℤ → AttributeValue
  double : Micro → AttributeValue
  bool : Bool → AttributeValue
  datetime : ℕ → AttributeValue
  keyword_list : List String → AttributeValue

-- A `SearchAttributePair`, and what `value_set` gives.
pub record Pair : Type 0 where
  pub attribute : SearchAttributeKey
  pub value : AttributeValue

abbrev pub set : SearchAttributeKey → AttributeValue → Pair
set k v = record { attribute = k; value = v }
