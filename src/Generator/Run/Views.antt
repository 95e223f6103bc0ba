-- ===== src/Generator/Run/Views.antt =====
-- The turns of each loop of the generator in a run of all of them (generator.py).
use warden_demo_workload.Prelude.{◌≡◌, refl, ap, Bool, true, false, List, [], ◌∷◌}
use warden_demo_workload.Prelude.Int.{ℤ}
use warden_demo_workload.Common.Config.{Config}
use warden_demo_workload.Control.Schema.{Scenarios}
use warden_demo_workload.Python.Value.{Conversions}
use warden_demo_workload.Generator.Entities.{Cluster}
use warden_demo_workload.Generator.Fleet.{Tick}
use warden_demo_workload.Generator.Relay.{Relay, control_loop, control_tick}
use warden_demo_workload.Generator.Traffic.{
  Loop, OrderTurn, BatchTurn, order_loop, batch_loop, order_turn, batch_turn,
}
use warden_demo_workload.Generator.Run.{
  Couriers, courier_turn, refreshed, Turn, order, courier, batch, control, keepalive,
}
use warden_demo_workload.Generator.Traffic.Lives.{unless_died-alive}
use warden_demo_workload.Generator.Relay
use warden_demo_workload.Common.Models.{OrderInput, BatchInput}

-- The turns of the couriers' loop, one after the other.
abbrev pub couriers_from : ℤ → List Tick → Couriers → Couriers
couriers_from size [] c = c
couriers_from size (t ∷ ticks) c = couriers_from size ticks (courier_turn size t c)

module _ (cluster : Cluster) (cv : Conversions) (config : Config) where
  -- What each loop sees of a sequence of turns, from some scenarios on: its own turns, with the
  -- scenarios of the last reading.
  abbrev pub order_turns : Scenarios → List (Turn cluster cv config) → List OrderTurn
  order_turns s [] = []
  order_turns s (order draws outcome ∷ turns) =
      record { scenarios = s; draws = draws; outcome = outcome } ∷ order_turns s turns
  order_turns s (courier t ∷ turns) = order_turns s turns
  order_turns s (batch id size outcome ∷ turns) = order_turns s turns
  order_turns s (control answer ∷ turns) = order_turns (refreshed answer s) turns
  order_turns s (keepalive change ∷ turns) = order_turns s turns

  abbrev pub batch_turns : Scenarios → List (Turn cluster cv config) → List BatchTurn
  batch_turns s [] = []
  batch_turns s (order draws outcome ∷ turns) = batch_turns s turns
  batch_turns s (courier t ∷ turns) = batch_turns s turns
  batch_turns s (batch id size outcome ∷ turns) =
      record { scenarios = s; batch_id = id; size = size; outcome = outcome } ∷ batch_turns s turns
  batch_turns s (control answer ∷ turns) = batch_turns (refreshed answer s) turns
  batch_turns s (keepalive change ∷ turns) = batch_turns s turns

  abbrev pub readings : Scenarios → List (Turn cluster cv config) → List Scenarios
  readings s [] = []
  readings s (order draws outcome ∷ turns) = readings s turns
  readings s (courier t ∷ turns) = readings s turns
  readings s (batch id size outcome ∷ turns) = readings s turns
  readings s (control answer ∷ turns) = refreshed answer s ∷ readings (refreshed answer s) turns
  readings s (keepalive change ∷ turns) = readings s turns

  abbrev pub ticks : List (Turn cluster cv config) → List Tick
  ticks [] = []
  ticks (order draws outcome ∷ turns) = ticks turns
  ticks (courier t ∷ turns) = t ∷ ticks turns
  ticks (batch id size outcome ∷ turns) = ticks turns
  ticks (control answer ∷ turns) = ticks turns
  ticks (keepalive change ∷ turns) = ticks turns

  abbrev pub changes : List (Turn cluster cv config) → List (cluster.State → cluster.State)
  changes [] = []
  changes (order draws outcome ∷ turns) = changes turns
  changes (courier t ∷ turns) = changes turns
  changes (batch id size outcome ∷ turns) = changes turns
  changes (control answer ∷ turns) = changes turns
  changes (keepalive change ∷ turns) = change ∷ changes turns

  -- The first turn of a loop that has not raised.
  pub order_loop-alive :
      (t : OrderTurn) (turns : List OrderTurn) (l : Loop OrderInput)
      → l.died ≡ false
      → order_loop cv config.order_stage_tracking (t ∷ turns) l
        ≡ order_loop cv config.order_stage_tracking turns
            (order_turn cv config.order_stage_tracking t l)
  unfolding order_loop
  order_loop-alive t turns l h =
      ap (order_loop cv config.order_stage_tracking turns)
        (unless_died-alive l.died l (order_turn cv config.order_stage_tracking t l) h)

  pub batch_loop-alive :
      (t : BatchTurn) (turns : List BatchTurn) (l : Loop BatchInput)
      → l.died ≡ false
      → batch_loop cv (t ∷ turns) l ≡ batch_loop cv turns (batch_turn cv t l)
  unfolding batch_loop
  batch_loop-alive t turns l h =
      ap (batch_loop cv turns) (unless_died-alive l.died l (batch_turn cv t l) h)

  pub control_loop-alive :
      (s : Scenarios) (later : List Scenarios) (r : Relay)
      → r.died ≡ false
      → control_loop cv (s ∷ later) r ≡ control_loop cv later (control_tick cv s r)
  unfolding control_loop
  control_loop-alive s later r h =
      ap (control_loop cv later) (alive r.died r (control_tick cv s r) h)
    where
      alive : (b : Bool) (old new : Relay) → b ≡ false → Relay.unless_died cv b old new ≡ new
      alive true old new h = cc h
      alive false old new h = refl
