-- ===== src/Workflows/Settlement.antt =====
-- workflows/settlement.py: `SettlementWorkflow.run`, for the payout that its activity returns.
use warden_demo_workload.Prelude.{String, List, [], ◌∷◌}
use warden_demo_workload.Common.Models.{SettlementInput}
use warden_demo_workload.Common.SearchAttributes.{set, AttributeValue, courier_payout_usd}
use warden_demo_workload.Python.Value.{Micro, str}
use warden_demo_workload.Temporal.{Command, activity, upsert}

-- What it returns, and its commands.
unfoldable pub settle : Micro → SettlementInput → String × List Command
settle payout inp = (
  "settled",
  activity "capture_payment" (str inp.order_id ∷ [])
      ∷ activity "compute_payout" (str inp.order_id ∷ [])
      ∷ upsert (set courier_payout_usd (AttributeValue.double payout) ∷ [])
      ∷ [],
)
