-- ===== src/Generator/Relay.antt =====
-- generator.py: `control_loop`, which relays the entity-history fault to a region's dispatch entity.
pub mod Regions
mod Tests
use warden_demo_workload.Prelude.{
  String, Bool, true, false, not, ◌&&◌, List, [], ◌∷◌, ◌++◌, ◌==◌, if◌then◌else◌,
}
use warden_demo_workload.Prelude.Int.{pos}
use warden_demo_workload.Common.Constants.{dispatch_id}
use warden_demo_workload.Common.Models.{Degradation, no_degradation}
use warden_demo_workload.Python.Dict.{Dict, get}
use warden_demo_workload.Python.Value.{
  Value, null, bool, int, str, Conversions, Result, ok, raised, truthy, to_int, ◌>>=◌,
}
use warden_demo_workload.Control.Schema.{Scenarios, entity_history}
use warden_demo_workload.Control.Cache.{is_enabled, get_params}
use warden_demo_workload.Activities.{param_or}

-- A `set_degradation` signal: the workflow's id, and the payload.
abbrev pub Call : Type 0
Call = String × Degradation

-- `_degraded_region`, the signals sent, and whether an exception has ended the loop.
pub record Relay : Type 0 where
  pub degraded_region : Value
  pub sent : List Call
  pub died : Bool

-- `__init__`
abbrev pub init : Relay
init = record { degraded_region = null; sent = []; died = false }

module _ (cv : Conversions) where
  -- `dispatch_id(region)`
  abbrev pub entity_of : Value → String
  entity_of region = dispatch_id (cv.format region)

  abbrev pub region_of : Scenarios → Value
  region_of scenarios =
      param_or (get (get_params scenarios entity_history) "region") (str "us-west")

  -- `Degradation(...)` from the scenario's parameters.
  unfoldable pub degradation_of : Dict Value → Result Degradation
  unfolding get
  degradation_of params =
      to_int cv (param_or (get params "inflate_rate") (int (pos 40))) >>= λ rate. ok (record {
        suspend_can = truthy (param_or (get params "suspend_can") (bool true));
        inflate_history = truthy (param_or (get params "inflate_history") (bool true));
        inflate_rate = rate;
      })

  -- `_reset_region`
  unfoldable pub reset_region : Value → List Call
  reset_region region = (entity_of region, no_degradation) ∷ []

  -- The reset of the region that was degraded before, when it is another one.
  unfoldable pub moved_from : Value → Value → List Call
  unfolding reset_region
  moved_from old region = if truthy old && not (cv.equal old region) then reset_region old else []

  abbrev pub degrade : Value → Relay → List Call → Result Degradation → Relay
  degrade region r resets (ok g) = record {
    degraded_region = region;
    sent = r.sent ++ resets ++ (entity_of region, g) ∷ [];
    died = r.died;
  }
  degrade region r resets (raised e) = record r { sent = r.sent ++ resets; died = true }

  -- One turn of the loop, on the scenarios that the generator has read.
  unfoldable pub control_tick : Scenarios → Relay → Relay
  unfolding degradation_of reset_region moved_from
  control_tick scenarios r =
      if is_enabled scenarios entity_history
      then degrade (region_of scenarios) r (moved_from r.degraded_region (region_of scenarios))
          (degradation_of (get_params scenarios entity_history))
      else if truthy r.degraded_region
      then record r { degraded_region = null; sent = r.sent ++ reset_region r.degraded_region }
      else r

  abbrev pub unless_died : Bool → Relay → Relay → Relay
  unless_died true old new = old
  unless_died false old new = new

  -- The turns, one for each reading of the scenarios; an exception ends the loop.
  unfoldable pub control_loop : List Scenarios → Relay → Relay
  unfolding control_tick
  control_loop [] r = r
  control_loop (s ∷ readings) r = control_loop readings (unless_died r.died r (control_tick s r))
