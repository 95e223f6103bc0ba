-- ===== src/Generator/Relay/Tests.antt =====
-- The relay on concrete readings of the scenarios.
use warden_demo_workload.Prelude.{String, refl, true, List, [], ◌∷◌, All, eq_iff}
use warden_demo_workload.Python.Dict.{get}
use warden_demo_workload.Python.Value.{str}
use warden_demo_workload.Python.Reference.{text_conversions}
use warden_demo_workload.Control.Schema.{Scenarios, entity_history}
use warden_demo_workload.Control.Cache.{get_params}
use warden_demo_workload.Generator.Relay.{init, region_of, control_loop}
use warden_demo_workload.Generator.Relay.Regions.{
  ComparesText, IsRegion, IsOnlyHere, land, healthy, control_loop-IsOnlyHere,
}

abbrev fault_in : String → Scenarios
fault_in region =
    (entity_history, record { enabled = true; params = ("region", str region) ∷ [] }) ∷ []

-- The fault moves from one region to another, and ends.
abbrev readings : List Scenarios
readings = fault_in "us-west" ∷ fault_in "us-east" ∷ [] ∷ []

text-ComparesText : ComparesText text_conversions
text-ComparesText s t h = (eq_iff s t).0 h

readings-AllRegions : All (λ s. IsRegion (region_of text_conversions s)) readings
unfolding get get_params
readings-AllRegions = (
  record { name = "us-west"; named = refl; given = refl },
  (
    record { name = "us-east"; named = refl; given = refl },
    (record { name = "us-west"; named = refl; given = refl }, tt),
  ),
)

control_loop-IsOnlyHere_example :
    let r = control_loop text_conversions readings init in
    IsOnlyHere text_conversions r.degraded_region (land r.sent healthy)
control_loop-IsOnlyHere_example =
    control_loop-IsOnlyHere text_conversions text-ComparesText readings readings-AllRegions
