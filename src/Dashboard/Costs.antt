-- ===== src/Dashboard/Costs.antt =====
-- The dashboard's estimate against the upserts that orders and settlements give (dashboard/app.py).
use warden_demo_workload.Prelude.{
  ℕ, ◌≡◌, ◌+◌, arith, String, length, Bool-cases, inl, inr, if◌then◌else◌,
}
use warden_demo_workload.Python.Value.{Conversions, Micro}
use warden_demo_workload.Common.Models.{OrderInput, SettlementInput}
use warden_demo_workload.Temporal.{Server, upserts, ok}
use warden_demo_workload.Workflows.Order.{Turn, init, run}
use warden_demo_workload.Workflows.Order.Stages.{run-Upserts}
use warden_demo_workload.Workflows.Settlement.{settle}
use warden_demo_workload.Dashboard.{estimated_upserts}

-- An order that is delivered and its settlement together pay for as many upserts as the dashboard
-- estimates if stages are tracked, and for one more than it estimates if they are not.
pub estimated_upserts_lem :
    (server : Server) (cv : Conversions) (workflow_id : String) (inp : OrderInput)
    (turns : ℕ → Turn) (now : ℕ) (payout : Micro) (settlement : SettlementInput)
    → (run server cv workflow_id inp (init turns now)).0 ≡ ok "delivered"
    → length (upserts (run server cv workflow_id inp (init turns now)).1.log)
        + length (upserts (settle payout settlement).1)
      ≡ estimated_upserts inp.track_stages + (if inp.track_stages then 0 else 1)
unfolding settle estimated_upserts
estimated_upserts_lem server cv workflow_id inp turns now payout settlement delivered =
    elim (run-Upserts server cv workflow_id inp turns now) [
      | inl (stopped, quiet) ↦ cc (delivered, stopped)
      | inr all ↦ elim (Bool-cases inp.track_stages) [
        | inl on ↦ rw (all, on) (omega arith)
        | inr off ↦ rw (all, off) (omega arith)
      ]
    ]
