-- ===== src/Workers/Entry.antt =====
-- workers/run_worker.py: the process that serves one task queue.
pub mod Serving
mod Tests
use warden_demo_workload.Prelude.{String, Option, none, some, List, [], ◌∷◌}
use warden_demo_workload.Python.Dict.{get}
use warden_demo_workload.Python.Value.{Micro, Conversions, Result, ok, raised, PyError}
use warden_demo_workload.Common.Config.{Env, Config, load_config, Connect, connect}
use warden_demo_workload.Workers.Registry.{Hosted, registry}

-- A worker that runs: its connection, its queue, what it hosts, and the pause of the refresher that
-- runs beside it.
pub record Worker : Type 0 where
  pub connection : Connect
  pub task_queue : String
  pub hosted : Hosted
  pub refresh_sec : Micro

-- How far the process comes.
pub data Started : Type 0 where
  usage unknown_queue not_connected : Started
  bad_setting : PyError → Started
  serving : Worker → Started

abbrev connected : String → Hosted → Config → Option Connect → Started
connected queue h config none = not_connected
connected queue h config (some connection) = serving (record {
  connection = connection;
  task_queue = queue;
  hosted = h;
  refresh_sec = config.control_cache_refresh_sec;
})

abbrev configured : String → Hosted → Result Config → Started
unfolding connect
configured queue h (raised e) = bad_setting e
configured queue h (ok config) = connected queue h config (connect config)

abbrev registered : Conversions → Env → String → Option Hosted → Started
unfolding load_config configured
registered cv env queue none = unknown_queue
registered cv env queue (some h) = configured queue h (load_config cv env)

unfoldable pub main : Conversions → Env → String → Started
unfolding registry get registered
main cv env queue = registered cv env queue (get registry queue)

-- The module run with its arguments, the program's name first.
unfoldable pub run_module : Conversions → Env → List String → Started
unfolding main
run_module cv env (program ∷ queue ∷ []) = main cv env queue
run_module cv env (program ∷ queue ∷ more ∷ arguments) = usage
run_module cv env (program ∷ []) = usage
run_module cv env [] = usage
