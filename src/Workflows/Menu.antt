-- ===== src/Workflows/Menu.antt =====
-- workflows/menu.py: one run of `MenuSyncWorkflow`.
use warden_demo_workload.Prelude.{◌+◌, List, [], ◌∷◌}
use warden_demo_workload.Common.Models.{MenuSyncState}
use warden_demo_workload.Common.SearchAttributes.{Pair, set, AttributeValue, restaurant_id}
use warden_demo_workload.Python.Value.{str}
use warden_demo_workload.Temporal.{Command, activity, timer}

-- The state and the attributes for the next run, and the commands.
pub record Synced : Type 0 where
  pub next : MenuSyncState
  pub attributes : List Pair
  pub log : List Command

unfoldable pub sync : MenuSyncState → Synced
sync state = record {
  next = record { restaurant_id = state.restaurant_id; runs = state.runs + 1 };
  attributes = set restaurant_id (AttributeValue.text state.restaurant_id) ∷ [];
  log =
      activity "fetch_menu" (str state.restaurant_id ∷ [])
      ∷ activity "refresh_menu" (str state.restaurant_id ∷ [])
      ∷ activity "publish_menu" (str state.restaurant_id ∷ [])
      ∷ timer 180
      ∷ [];
}
