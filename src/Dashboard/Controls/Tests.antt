-- ===== src/Dashboard/Controls/Tests.antt =====
-- The scenario routes on a concrete request.
use warden_demo_workload.Prelude.{◌≡◌, refl, true, some, List, [], ◌∷◌, String, ◌*◌, ◌+◌}
use warden_demo_workload.Prelude.Int.{pos, negsuc}
use warden_demo_workload.Python.Dict.{get}
use warden_demo_workload.Python.Value.{float}
use warden_demo_workload.Common.SearchAttributes.{order_stage_upsert_actions}
use warden_demo_workload.Control.Cache.{is_enabled}
use warden_demo_workload.Control.Schema.{default_scenarios}
use warden_demo_workload.Control.Workflow.{init}
use warden_demo_workload.Dashboard.Controls.{
  Written, set_scenario, terminate_dispatch, estimate, default_scenarios, actions_per_order,
}
use warden_demo_workload.Dashboard.Controls.Roundtrip.{IsWritten, set_scenario-IsWritten}

abbrev storm : Written
storm = record {
  name = "retry_storm";
  enabled = true;
  params = ("failure_probability", float (pos 500000)) ∷ [];
}

set_scenario-IsWritten_example : IsWritten storm init (set_scenario storm (some (some init)))
unfolding get
set_scenario-IsWritten_example = set_scenario-IsWritten storm init (refl, tt)

abbrev listed : List String
listed = "dispatch-us-west" ∷ "dispatch-south" ∷ "dispatch-midwest" ∷ []

test_two : terminate_dispatch (pos 2) listed ≡ "dispatch-us-west" ∷ "dispatch-south" ∷ []
unfolding terminate_dispatch
test_two = refl

test_negative : terminate_dispatch (negsuc 4) listed ≡ "dispatch-us-west" ∷ []
unfolding terminate_dispatch
test_negative = refl

-- At 0.6 orders a second, with no fault.
test_estimate :
    estimate (pos 600000) true default_scenarios
    ≡ pos (600000 * (11 + order_stage_upsert_actions) + 3700000)
unfolding estimate actions_per_order is_enabled default_scenarios get
test_estimate = refl
