-- ===== src/Workers/Entry/Tests.antt =====
-- The process of a queue with settings that are complete.
use warden_demo_workload.Prelude.{◌≡◌, refl, true, false, some, [], ◌∷◌, ◌⊎◌}
use warden_demo_workload.Common.Config.{Connect, connect}
use warden_demo_workload.Common.Config.Reference.{any_number, settings, loaded, settings_load}
use warden_demo_workload.Common.Constants.{all_task_queues}
use warden_demo_workload.Workers.Supervisor.{is_in}
use warden_demo_workload.Workers.Entry.{run_module, usage, unknown_queue}
use warden_demo_workload.Workers.Entry.Serving.{Serves, run_module-Serves}

abbrev dialled : Connect
dialled = record {
  address = "demo.a1b2c.tmprl.cloud:7233";
  namespace = "demo.a1b2c";
  api_key = "secret";
  tls = true;
  rpc_metadata = ("temporal-namespace", "demo.a1b2c") ∷ [];
}

loaded_connects : connect loaded ≡ some dialled
unfolding connect
loaded_connects = refl

run_module-Serves_example :
    ((is_in "menu-tq" all_task_queues ≡ true)
      × Serves "menu-tq" loaded dialled
          (run_module any_number settings ("run_worker" ∷ "menu-tq" ∷ [])))
    ⊎ ((is_in "menu-tq" all_task_queues ≡ false)
        × (run_module any_number settings ("run_worker" ∷ "menu-tq" ∷ []) ≡ unknown_queue))
run_module-Serves_example =
    run_module-Serves any_number settings "run_worker" "menu-tq" loaded dialled settings_load
      loaded_connects

test_usage : run_module any_number settings ("run_worker" ∷ []) ≡ usage
unfolding run_module
test_usage = refl
