-- ===== src/Generator/Run/Tests.antt =====
-- A run of the generator in which the turns of its loops alternate.
use warden_demo_workload.Prelude.{◌≢◌, refl, Bool, true, false, none, some, List, [], ◌∷◌, String}
use warden_demo_workload.Prelude.Int.{pos}
use warden_demo_workload.Common.Config.Reference.{any_number, loaded}
use warden_demo_workload.Control.Cache.{get_params}
use warden_demo_workload.Control.Schema.{default_scenarios}
use warden_demo_workload.Python.Dict.{get}
use warden_demo_workload.Generator.Entities.Reference.{answer, reference_cluster}
use warden_demo_workload.Workers.Supervisor.{is_in}
use warden_demo_workload.Generator.Fleet.{started, failed, Tick}
use warden_demo_workload.Generator.Inputs.{Draws}
use warden_demo_workload.Generator.Run.{
  Generator, Turn, order, courier, batch, control, keepalive, started_with, gather, run,
}
use warden_demo_workload.Generator.Run.Apart.{IsApart, gather-IsApart}
use warden_demo_workload.Generator.Run.Sound.{IsSound}
use warden_demo_workload.Generator.Run.Survival.{IsUp, IsRunning, run-IsRunning}

abbrev draws : Draws
draws = record {
  region = "us-west";
  restaurant = "rest-3";
  order_id = "0123456789ab";
  failure = pos 100000;
  timeout = pos 900000;
  tier = "plus";
  value = pos 20500000;
  surge = pos 700000;
  tags = [];
  notes = "";
}

abbrev tick : Tick
tick = record {
  fractions = λ n. (n, 500000);
  chance = pos 400000;
  pick = 7;
  order = "ab12cd34";
  hire = record { suffix = "0a1b2c"; region = "us-west"; vehicle = "bike"; outcome = started };
}

-- The first start of an order fails, a reading of the scenarios fails, and all entities are terminated
-- in the pause of the keepalive loop.
abbrev turns : List (Turn reference_cluster any_number loaded)
turns =
    order draws failed
    ∷ courier tick
    ∷ control none
    ∷ batch "b1" (pos 7) started
    ∷ control (some default_scenarios)
    ∷ keepalive (λ s. [])
    ∷ courier tick
    ∷ order draws started
    ∷ []

answer-ne-failed : (b : Bool) (id : String) (s : List String) → (answer b id s).0 ≢ failed
answer-ne-failed true id s h = cc h
answer-ne-failed false id s h = cc h

reference_cluster-IsUp : IsUp reference_cluster any_number loaded
reference_cluster-IsUp e s = answer-ne-failed (is_in e.id s) e.id s

default_scenarios-IsSound : IsSound any_number default_scenarios
unfolding default_scenarios get get_params
default_scenarios-IsSound = record {
  orders = record { failure = tt; timeout = tt };
  children = tt;
  iterations = tt;
  rate = tt;
}

abbrev begun : Generator reference_cluster any_number loaded
begun = started_with reference_cluster any_number loaded (some default_scenarios) []

gather-IsApart_example :
    IsApart reference_cluster any_number loaded turns begun
      (gather reference_cluster any_number loaded turns begun)
gather-IsApart_example = gather-IsApart reference_cluster any_number loaded turns begun refl

run-IsRunning_example :
    IsRunning reference_cluster any_number loaded none turns []
      (run reference_cluster any_number loaded none turns [])
run-IsRunning_example =
    run-IsRunning reference_cluster any_number loaded none turns [] reference_cluster-IsUp
      (tt, (tt, (tt, (tt, (tt, (default_scenarios-IsSound, (tt, (tt, (tt, tt)))))))))
