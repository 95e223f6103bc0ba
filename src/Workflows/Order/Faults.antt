-- ===== src/Workflows/Order/Faults.antt =====
-- The faults that are stamped into an order at its start (workflows/order.py): a rejection by the
-- restaurant (S4), a slow validation and a forced timeout (S5).
use warden_demo_workload.Prelude.{
  ℕ, ◌≡◌, refl, inl, inr, String, true, [], ◌∷◌, ◌++◌, if◌then◌else◌,
}
use warden_demo_workload.Python.Value.{Conversions}
use warden_demo_workload.Common.Models.{OrderInput}
use warden_demo_workload.Temporal.{timer, failed, Server}
use warden_demo_workload.Activities.{validate_order}
use warden_demo_workload.Activities.Storm.{attempt_payment}
use warden_demo_workload.Common.Retry.{default_retry, storm_retry}
use warden_demo_workload.Temporal.{upserts}
use warden_demo_workload.Workflows.Order.{Saga, Turn, init, after, accept, run}
use warden_demo_workload.Workflows.Order.Awaits.{validate_slow, send_rejected, after-log}
use warden_demo_workload.Workflows.Order.Course.{paused, pause_lem, paused-log, validate_command}
use warden_demo_workload.Workflows.Order.Stages.{Outcome-cases, accept-IsQuiet}

module _ (server : Server) (cv : Conversions) (workflow_id : String) (inp : OrderInput) where
  accept_slow :
      (s : Saga)
      → inp.slow_validate ≡ true
      → accept server cv workflow_id inp s ≡ (failed, after (validate_command inp) (paused inp s))
  unfolding accept
  accept_slow s slow =
      rw (pause_lem inp s, validate_slow server inp.order_id inp.slow_validate slow)

  -- An order with a slow validation fails there: it asks for nothing more.
  pub run_slow :
      (turns : ℕ → Turn) (now : ℕ)
      → inp.slow_validate ≡ true
      → let r = run server cv workflow_id inp (init turns now) in
        (r.0 ≡ failed)
        × (r.1.log
            ≡ (if inp.force_timeout then timer 30 ∷ [] else []) ++ (validate_command inp ∷ []))
  unfolding run
  run_slow turns now slow =
      let s : Saga = record (init turns now) { track_stages = inp.track_stages } in
      rw (accept_slow s slow) (refl, simp (after-log, paused-log))

  accept_rejected :
      (s : Saga) → inp.fail_at_restaurant ≡ true → (accept server cv workflow_id inp s).0 ≡ failed
  unfolding accept
  accept_rejected s rejected =
      let s1 : Saga = after (validate_command inp) (paused inp s) in
      elim (Outcome-cases
        (server.execute default_retry 8 (λ k. validate_order inp.order_id inp.slow_validate))) [
          | inl slow ↦ rw (pause_lem inp s, slow)
          | inr (v, valid) ↦
              elim (Outcome-cases (
                server.execute storm_retry 10
                  (attempt_payment cv (s1.turns 0).sights inp.order_id))) [
                    | inl unpaid ↦ rw (pause_lem inp s, valid, unpaid)
                    | inr (receipt, paid) ↦ rw (
                      pause_lem inp s,
                      valid,
                      paid,
                      send_rejected server inp.order_id inp.fail_at_restaurant rejected,
                    )
                  ]
        ]

  -- An order that the restaurant rejects fails in every environment, before any upsert.
  pub run_rejected :
      (turns : ℕ → Turn) (now : ℕ)
      → inp.fail_at_restaurant ≡ true
      → let r = run server cv workflow_id inp (init turns now) in
        (r.0 ≡ failed) × (upserts r.1.log ≡ [])
  unfolding run
  run_rejected turns now rejected =
      let s : Saga = record (init turns now) { track_stages = inp.track_stages } in
      rw (accept_rejected s rejected)
        (refl, (accept-IsQuiet server cv workflow_id inp).same_upserts s)
