-- ===== src/Generator/Run/Sound.antt =====
-- Scenarios that the generator's loops can read (generator.py).
use warden_demo_workload.Prelude.{ℕ, ◌≡◌, refl, List, Bool-cases, inl, inr, Option, String}
use warden_demo_workload.Prelude.Int.{ℤ, pos}
use warden_demo_workload.Common.Models.{OrderInput, BatchInput, Degradation}
use warden_demo_workload.Control.Schema.{
  Scenarios, entity_history, fanout_storm, close_history_bloat,
}
use warden_demo_workload.Control.Cache.{is_enabled, get_params}
use warden_demo_workload.Activities.{param_or}
use warden_demo_workload.Python.Dict.{Dict, get}
use warden_demo_workload.Python.Value.{Value, Conversions, Result, ok, raised, int, to_int, truthy}
use warden_demo_workload.Generator.Fleet.{StartOutcome}
use warden_demo_workload.Generator.Inputs.{batch_input}
use warden_demo_workload.Generator.Relay.{
  Call, Relay, control_tick, degrade, degradation_of, region_of,
}
use warden_demo_workload.Generator.Traffic.{Loop, order_made, batch_made}
use warden_demo_workload.Generator.Traffic.Lives.{IsOk, IsOk-bind, IsReadable}

-- A parameter that `int` takes.
abbrev IsInt : Conversions → Scenarios → String → String → ℤ → Type 0
IsInt cv scenarios name param default =
    IsOk (to_int cv (param_or (get (get_params scenarios name) param) (int default)))

-- Scenarios of which every parameter that the loops convert is a number, or the text of one, or not
-- there.
pub record IsSound (cv : Conversions) (scenarios : Scenarios) : Type 0 where
  pub orders : IsReadable cv scenarios
  pub children : IsInt cv scenarios fanout_storm "children" (pos 400)
  pub iterations : IsInt cv scenarios close_history_bloat "iterations" (pos 700)
  pub rate : IsInt cv scenarios entity_history "inflate_rate" (pos 40)

pub batch_input-IsOk :
    (cv : Conversions) (scenarios : Scenarios) (id : String) (size : ℤ)
    → IsSound cv scenarios
    → IsOk (batch_input cv scenarios id size)
unfolding batch_input
batch_input-IsOk cv scenarios id size h = elim (Bool-cases (is_enabled scenarios fanout_storm)) [
  | inl storm ↦ rw storm (IsOk-bind (to_int cv _) _ h.children (λ n. tt))
  | inr off ↦ elim (Bool-cases (is_enabled scenarios close_history_bloat)) [
    | inl bloat ↦ rw (off, bloat) (IsOk-bind (to_int cv _) _ h.iterations (λ n. tt))
    | inr healthy ↦ rw (off, healthy) tt
  ]
]

pub order_made-alive :
    (outcome : StartOutcome) (r : Result (OrderInput × Option ℕ)) (l : Loop OrderInput)
    → IsOk r
    → (order_made outcome r l).died ≡ l.died
unfolding order_made
order_made-alive outcome (ok a) l h = refl
order_made-alive outcome (raised e) l h = absurd h

pub batch_made-alive :
    (outcome : StartOutcome) (r : Result BatchInput) (l : Loop BatchInput)
    → IsOk r
    → (batch_made outcome r l).died ≡ l.died
unfolding batch_made
batch_made-alive outcome (ok a) l h = refl
batch_made-alive outcome (raised e) l h = absurd h

degrade-alive :
    (cv : Conversions) (region : Value) (r : Relay) (resets : List Call) (g : Result Degradation)
    → IsOk g
    → (degrade cv region r resets g).died ≡ r.died
degrade-alive cv region r resets (ok g) h = refl
degrade-alive cv region r resets (raised e) h = absurd h

degradation_of-IsOk :
    (cv : Conversions) (params : Dict Value)
    → IsOk (to_int cv (param_or (get params "inflate_rate") (int (pos 40))))
    → IsOk (degradation_of cv params)
unfolding degradation_of
degradation_of-IsOk cv params h = IsOk-bind (to_int cv _) _ h (λ n. tt)

pub control_tick-alive :
    (cv : Conversions) (scenarios : Scenarios) (r : Relay)
    → IsSound cv scenarios
    → (control_tick cv scenarios r).died ≡ r.died
unfolding control_tick
control_tick-alive cv scenarios r h = elim (Bool-cases (is_enabled scenarios entity_history)) [
  | inl on ↦ rw on (
      degrade-alive cv (region_of cv scenarios) r _ _
        (degradation_of-IsOk cv (get_params scenarios entity_history) h.rate))
  | inr off ↦ elim (Bool-cases (truthy r.degraded_region)) [
    | inl some_old ↦ rw (off, some_old) refl
    | inr none_old ↦ rw (off, none_old) refl
  ]
]
