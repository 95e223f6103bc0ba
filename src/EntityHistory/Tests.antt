-- ===== src/EntityHistory/Tests.antt =====
-- The fault moves from one region to another.
use warden_demo_workload.Prelude.{String, refl, true, false, List, [], ◌∷◌, All, eq_iff}
use warden_demo_workload.Prelude.Int.{pos}
use warden_demo_workload.Common.Constants.{dispatch_id}
use warden_demo_workload.Common.Models.{Degradation, no_degradation, fresh_region}
use warden_demo_workload.Python.Dict.{get}
use warden_demo_workload.Python.Value.{str}
use warden_demo_workload.Python.Reference.{text_conversions}
use warden_demo_workload.Control.Schema.{Scenarios, entity_history}
use warden_demo_workload.Control.Cache.{is_enabled, get_params}
use warden_demo_workload.Generator.Relay.{region_of, control_loop, moved_from}
use warden_demo_workload.Generator.Relay.Regions.{ComparesText, IsRegion}
use warden_demo_workload.Workflows.Dispatch
use warden_demo_workload.Workflows.Dispatch.{Activation, set_degradation, begin}
use warden_demo_workload.Workflows.Dispatch.Lifetime.{lifetime}
use warden_demo_workload.EntityHistory.{Outcome, lifetime-Outcome}

abbrev fault_in : String → Scenarios
fault_in region =
    (entity_history, record { enabled = true; params = ("region", str region) ∷ [] }) ∷ []

abbrev fault : Degradation
fault = record { suspend_can = true; inflate_history = true; inflate_rate = pos 40 }

abbrev visits : List Activation
visits =
    record { history = 10; signals = set_degradation fault ∷ []; done = false }
    ∷ record { history = 20; signals = set_degradation no_degradation ∷ []; done = false }
    ∷ record { history = 1501; signals = []; done = true }
    ∷ []

text-ComparesText : ComparesText text_conversions
text-ComparesText s t h = (eq_iff s t).0 h

readings-AllRegions :
    All
      (λ s. IsRegion (region_of text_conversions s))
      (fault_in "us-west" ∷ fault_in "us-east" ∷ [])
unfolding get get_params
readings-AllRegions = (
  record { name = "us-west"; named = refl; given = refl },
  (record { name = "us-east"; named = refl; given = refl }, tt),
)

lifetime-Outcome_example :
    let (e, commands) = lifetime visits (begin (fresh_region "us-west") Dispatch.init).0 in
    Outcome text_conversions (fault_in "us-east") "dispatch-us-west" e.fields.degr
unfolding control_loop get get_params is_enabled moved_from dispatch_id
lifetime-Outcome_example =
    lifetime-Outcome text_conversions (fault_in "us-west" ∷ []) (fault_in "us-east") "us-west"
      visits text-ComparesText readings-AllRegions refl refl
