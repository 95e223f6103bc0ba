-- ===== src/Common/Models.antt =====
-- common/models.py: the inputs of workflows and the payloads of signals.
use warden_demo_workload.Prelude.{ℕ, String, Bool, false, List, []}
use warden_demo_workload.Prelude.Int.{ℤ, pos}
use warden_demo_workload.Python.Value.{Micro}

pub record OrderInput : Type 0 where
  pub order_id : String
  pub region : String
  pub restaurant_id : String
  pub fail_at_restaurant : Bool
  pub slow_validate : Bool
  pub force_timeout : Bool
  pub priority_tier : String
  pub order_value_usd : Micro
  pub surge_pricing : Bool
  pub dietary_tags : List String
  pub delivery_notes : String
  pub track_stages : Bool

pub record OrderReady : Type 0 where
  pub order_id : String
  pub order_wf_id : String
  pub region : String

pub record CourierAvailable : Type 0 where
  pub courier_id : String
  pub region : String

pub record Degradation : Type 0 where
  pub suspend_can : Bool
  pub inflate_history : Bool
  pub inflate_rate : ℤ

-- `Degradation()`
abbrev pub no_degradation : Degradation
no_degradation = record { suspend_can = false; inflate_history = false; inflate_rate = pos 40 }

-- One entry of `pending_orders`.
pub record PendingOrder : Type 0 where
  pub order_id : String
  pub order_wf_id : String

pub record DispatchState : Type 0 where
  pub region : String
  pub pending_orders : List PendingOrder
  pub available_couriers : List String
  pub processed : ℕ
  pub degradation : Degradation

-- `DispatchState(region=region)`
abbrev pub fresh_region : String → DispatchState
fresh_region r = record {
  region = r;
  pending_orders = [];
  available_couriers = [];
  processed = 0;
  degradation = no_degradation;
}

pub record CourierState : Type 0 where
  pub courier_id : String
  pub region : String
  pub assignments : ℕ
  pub pings : ℕ
  pub vehicle_type : String

pub record BatchInput : Type 0 where
  pub batch_id : String
  pub mode : String
  pub children : ℤ
  pub iterations : ℤ

pub record CandidateInput : Type 0 where
  pub batch_id : String
  pub candidate_id : String

pub record SettlementInput : Type 0 where
  pub order_id : String
  pub region : String
  pub restaurant_id : String
  pub courier_id : String

pub record MenuSyncState : Type 0 where
  pub restaurant_id : String
  pub runs : ℕ
