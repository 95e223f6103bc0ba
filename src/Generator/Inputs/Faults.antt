-- ===== src/Generator/Inputs/Faults.antt =====
-- What the scenarios do to the traffic (generator.py).
use warden_demo_workload.Prelude.{
  subst, ℕ, ◌≡◌, ◌≤◌, ◌≢◌, refl, String, Bool, false, Option, none, arith, Bool-cases, inl, inr,
  eq_iff,
}
use warden_demo_workload.Prelude.Int.{ℤ}
use warden_demo_workload.Common.Models.{BatchInput, OrderInput}
use warden_demo_workload.Python.Value.{◌>>=◌, Micro, Conversions, Result, ok, raised}
use warden_demo_workload.Control.Schema.{
  Scenarios, fanout_storm, close_history_bloat, workflow_failure, timeout_spike,
}
use warden_demo_workload.Control.Cache.{is_enabled}
use warden_demo_workload.Temporal.{Server}
use warden_demo_workload.Workflows.Batch.{run}
use warden_demo_workload.Workflows.Batch.Fanout.{children, run_bounded}
use warden_demo_workload.Workflows.Order
use warden_demo_workload.Workflows.Order.{Turn, init}
use warden_demo_workload.Workflows.Order.Awaits.{Pays, Accepts}
use warden_demo_workload.Workflows.Order.Delivers.{Delivered, run-Delivered}
use warden_demo_workload.Generator.Inputs.{Draws, hits, order_input, batch_input}

-- A batch whose mode is not the storm's.
abbrev IsCalm : Result BatchInput → Type 0
IsCalm (ok inp) = inp.mode ≢ "fanout_storm"
IsCalm (raised e) = Unit

bloat_ne_storm : ¬ (◌≡◌ {A = String} "sequential_bloat" "fanout_storm")
bloat_ne_storm e = ground (arith, eq_iff "sequential_bloat" "fanout_storm")

normal_ne_storm : ¬ (◌≡◌ {A = String} "normal" "fanout_storm")
normal_ne_storm e = ground (arith, eq_iff "normal" "fanout_storm")

IsCalm-bind :
    (r : Result ℤ) (f : ℤ → BatchInput)
    → ((n : ℤ) → (f n).mode ≢ "fanout_storm")
    → IsCalm (r >>= λ n. ok (f n))
IsCalm-bind (ok n) f h = h n
IsCalm-bind (raised e) f h = tt

batch_input-IsCalm :
    (cv : Conversions) (scenarios : Scenarios) (batch_id : String) (size : ℤ)
    → is_enabled scenarios fanout_storm ≡ false
    → IsCalm (batch_input cv scenarios batch_id size)
unfolding batch_input
batch_input-IsCalm cv scenarios batch_id size off =
    elim (Bool-cases (is_enabled scenarios close_history_bloat)) [
      | inl bloat ↦ rw (off, bloat) (IsCalm-bind _ _ (λ n. bloat_ne_storm))
      | inr healthy ↦ rw (off, healthy) normal_ne_storm
    ]

-- While the fan-out storm is off, every batch that the generator makes starts at most 8 children,
-- whatever the other scenarios are and whatever size it draws.
pub batch_input-run :
    (cv : Conversions) (scenarios : Scenarios) (batch_id : String) (size : ℤ) (inp : BatchInput)
    (scores : String → Micro)
    → is_enabled scenarios fanout_storm ≡ false
    → batch_input cv scenarios batch_id size ≡ ok inp
    → children (run scores inp).1 ≤ 8
batch_input-run cv scenarios batch_id size inp scores off made =
    run_bounded scores inp (subst IsCalm made (batch_input-IsCalm cv scenarios batch_id size off))

-- An order that is neither slow, nor to be rejected, nor to time out, and that is started with no
-- execution timeout.
abbrev IsServed : Result (OrderInput × Option ℕ) → Type 0
IsServed (ok (inp, timeout)) =
    (inp.slow_validate ≡ false)
    × (inp.fail_at_restaurant ≡ false)
    × (inp.force_timeout ≡ false)
    × (timeout ≡ none)
IsServed (raised e) = Unit

order_input-IsServed :
    (cv : Conversions) (tracking : Bool) (scenarios : Scenarios) (d : Draws)
    → is_enabled scenarios workflow_failure ≡ false
    → is_enabled scenarios timeout_spike ≡ false
    → IsServed (order_input cv tracking scenarios d)
unfolding order_input hits
order_input-IsServed cv tracking scenarios d off calm = rw (off, calm) (refl, refl, refl, refl)

-- While the workflow-failure and the timeout-spike scenarios are off, every order that the generator
-- makes is started with no execution timeout and runs through to its delivery, with the courier of
-- its environment or the synthetic one, if in every await one of the first 1000 payment attempts
-- would pass the storm and its settlement child is accepted.
pub order_input-run :
    (cv : Conversions) (tracking : Bool) (scenarios : Scenarios) (d : Draws) (inp : OrderInput)
    (timeout : Option ℕ) (server : Server) (workflow_id : String) (turns : ℕ → Turn) (now : ℕ)
    → is_enabled scenarios workflow_failure ≡ false
    → is_enabled scenarios timeout_spike ≡ false
    → order_input cv tracking scenarios d ≡ ok (inp, timeout)
    → Pays cv (init turns now)
    → Accepts (init turns now)
    → (timeout ≡ none)
      × Delivered inp workflow_id turns now (Order.run server cv workflow_id inp (init turns now))
order_input-run cv tracking scenarios d inp timeout server workflow_id turns now off calm made pays
      free =
    let (prompt, served, unforced, unlimited) =
      subst IsServed made (order_input-IsServed cv tracking scenarios d off calm) in
    (unlimited, run-Delivered server cv workflow_id inp turns now prompt served unforced pays free)
