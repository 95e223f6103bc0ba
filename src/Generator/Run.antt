-- ===== src/Generator/Run.antt =====
-- generator.py: `Generator.run`, the five loops side by side. A loop gives way only at its awaits, and
-- it reads the scenarios in one go, so a run is a sequence of turns, each of one of the loops. What a
-- turn draws and what the server answers are in the turn.
pub mod Apart
pub mod Views
pub mod Sound
pub mod Survival
pub mod Shifts
mod Tests
use warden_demo_workload.Prelude.{
  ℕ, suc, String, Bool, true, false, Option, none, some, List, [], ◌∷◌, ◌||◌, not, if◌then◌else◌,
}
use warden_demo_workload.Prelude.Int.{ℤ}
use warden_demo_workload.Common.Config.{Config}
use warden_demo_workload.Common.Models.{OrderInput, BatchInput}
use warden_demo_workload.Control.Schema.{Scenarios}
use warden_demo_workload.Python.Value.{Conversions}
use warden_demo_workload.Generator.Entities.{Cluster, run_startup, ensure_entities}
use warden_demo_workload.Generator.Fleet
use warden_demo_workload.Generator.Fleet.{Fleet, Tick, StartOutcome, short_of, start_courier, tick}
use warden_demo_workload.Generator.Inputs.{Draws}
use warden_demo_workload.Generator.Relay
use warden_demo_workload.Generator.Relay.{Relay, control_tick}
use warden_demo_workload.Generator.Traffic.{Loop, fresh, order_turn, batch_turn}

-- Where `courier_loop` stands: it brings the fleet up, or it has made some turns since.
pub data Phase : Type 0 where
  bringing : Phase
  ticking : ℕ → Phase

pub record Couriers : Type 0 where
  pub phase : Phase
  pub fleet : Fleet

-- The test of the first loop of `courier_loop`.
abbrev pub tested : ℤ → Fleet → Couriers
tested size f = record {
  phase = if short_of size f.couriers then bringing else ticking 0;
  fleet = f;
}

-- One turn of either of its loops.
unfoldable pub turn_at : ℤ → Tick → Phase → Fleet → Couriers
unfolding start_courier tick
turn_at size t bringing f = tested size (start_courier t.hire f)
turn_at size t (ticking n) f = record { phase = ticking (suc n); fleet = tick (suc n) t f }

unfoldable pub courier_turn : ℤ → Tick → Couriers → Couriers
unfolding turn_at
courier_turn size t c = turn_at size t c.phase c.fleet

-- `refresh_scenarios`: every exception leaves the scenarios as they are.
abbrev pub refreshed : Option Scenarios → Scenarios → Scenarios
refreshed none old = old
refreshed (some new) old = new

module _ (cluster : Cluster) (cv : Conversions) (config : Config) where
  -- The fields of the class, with what each loop has done, the server's open executions, and whether
  -- an exception has ended the keepalive loop.
  pub record Generator : Type 0 where
    pub scenarios : Scenarios
    pub orders : Loop OrderInput
    pub couriers : Couriers
    pub batches : Loop BatchInput
    pub relay : Relay
    pub server : cluster.State
    pub keepalive_died : Bool

  -- A turn of one of the loops; in the pause of the keepalive loop the server changes in some way.
  pub data Turn : Type 0 where
    order : Draws → StartOutcome → Turn
    courier : Tick → Turn
    batch : String → ℤ → StartOutcome → Turn
    control : Option Scenarios → Turn
    keepalive : (cluster.State → cluster.State) → Turn

  abbrev pub kept_alive : Generator → Bool × cluster.State → Generator
  kept_alive g (ended, s) = record g { server = s; keepalive_died = not ended }

  unfoldable pub take_turn : Turn → Generator → Generator
  unfolding order_turn courier_turn batch_turn control_tick ensure_entities
  take_turn (order draws outcome) g = record g {
    orders =
        order_turn cv config.order_stage_tracking
          (record { scenarios = g.scenarios; draws = draws; outcome = outcome }) g.orders;
  }
  take_turn (courier t) g = record g {
    couriers = courier_turn config.courier_fleet_size t g.couriers;
  }
  take_turn (batch id size outcome) g = record g {
    batches =
        batch_turn cv
          (record { scenarios = g.scenarios; batch_id = id; size = size; outcome = outcome })
          g.batches;
  }
  take_turn (control answer) g =
      let s = refreshed answer g.scenarios in
      record g { scenarios = s; relay = control_tick cv s g.relay }
  take_turn (keepalive change) g = kept_alive g (ensure_entities cluster (change g.server))

  -- `asyncio.gather` is over as soon as one of the loops has raised.
  abbrev pub is_over : Generator → Bool
  is_over g = g.orders.died || g.batches.died || g.relay.died || g.keepalive_died

  -- The loops, for a sequence of turns.
  unfoldable pub gather : List Turn → Generator → Generator
  unfolding take_turn
  gather [] g = g
  gather (t ∷ turns) g = let g' = gather turns (take_turn t g) in if is_over g then g else g'

  -- The generator at the start of its loops, for what `refresh_scenarios` has read.
  abbrev pub started_with : Option Scenarios → cluster.State → Generator
  started_with answer s = record {
    scenarios = refreshed answer [];
    orders = fresh;
    couriers = tested config.courier_fleet_size Fleet.init;
    batches = fresh;
    relay = Relay.init;
    server = s;
    keepalive_died = false;
  }

  abbrev begun : Bool → Generator → List Turn → Option Generator
  unfolding gather
  begun false g turns = none
  begun true g turns = some (gather turns g)

  -- `run`; none when an exception ends its start.
  unfoldable pub run : Option Scenarios → List Turn → cluster.State → Option Generator
  unfolding run_startup begun
  run answer turns s =
      let (ended, s') = run_startup cluster s in begun ended (started_with answer s') turns
