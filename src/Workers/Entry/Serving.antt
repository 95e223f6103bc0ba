-- ===== src/Workers/Entry/Serving.antt =====
-- Which arguments a worker's process serves (workers/run_worker.py).
use warden_demo_workload.Prelude.{
  String, ◌≡◌, refl, true, false, ◌==◌, none, some, [], ◌∷◌, map, ◌⊎◌, inl, inr, Bool-cases, subst,
}
use warden_demo_workload.Python.Dict.{Dict, get}
use warden_demo_workload.Python.Value.{Conversions, ok}
use warden_demo_workload.Common.Config.{Env, Config, Connect, load_config, connect}
use warden_demo_workload.Common.Constants.{all_task_queues}
use warden_demo_workload.Workers.Registry.{registry}
use warden_demo_workload.Workers.Registry.Hosting.{registry-queues}
use warden_demo_workload.Workers.Supervisor.{is_in}
use warden_demo_workload.Workers.Entry.{Worker, Started, serving, unknown_queue, main, run_module}

-- A key of a dictionary has a value, and nothing else has one.
get-is_in :
    {V : Type 0} (d : Dict V) (k : String)
    → ((is_in k (map (λ e. e.0) d) ≡ true) × (v : V) × (get d k ≡ some v))
      ⊎ ((is_in k (map (λ e. e.0) d) ≡ false) × (get d k ≡ none))
unfolding get
get-is_in [] k = inr (refl, refl)
get-is_in ((x, v) ∷ d) k = elim (Bool-cases (x == k)) [
  | inl same ↦ inl (rw same refl, v, rw same refl)
  | inr other ↦ rw other (get-is_in d k)
]

-- The process runs a worker on the queue, with what the registry has for it.
pub record Serves (queue : String) (config : Config) (connection : Connect) (s : Started)
    : Type 0 where
  pub worker : Worker
  pub is_serving : s ≡ serving worker
  pub on_queue : worker.task_queue ≡ queue
  pub registered : get registry queue ≡ some worker.hosted
  pub on_connection : worker.connection ≡ connection
  pub refresh : worker.refresh_sec ≡ config.control_cache_refresh_sec

-- With settings that can be read and suffice for a connection, the process that the supervisor
-- launches for a queue runs a worker that hosts the registry's entry for it, if the queue is one of
-- the task queues; and it gives up if it is not.
pub run_module-Serves :
    (cv : Conversions) (env : Env) (program queue : String) (config : Config) (connection : Connect)
    → load_config cv env ≡ ok config
    → connect config ≡ some connection
    → ((is_in queue all_task_queues ≡ true)
        × Serves queue config connection (run_module cv env (program ∷ queue ∷ [])))
      ⊎ ((is_in queue all_task_queues ≡ false)
          × (run_module cv env (program ∷ queue ∷ []) ≡ unknown_queue))
unfolding run_module main
run_module-Serves cv env program queue config connection read connects =
    elim (get-is_in registry queue) [
      | inl (known, h, found) ↦ inl (
        subst (λ queues. is_in queue queues ≡ true) registry-queues known,
        record {
          worker = record {
            connection = connection;
            task_queue = queue;
            hosted = h;
            refresh_sec = config.control_cache_refresh_sec;
          };
          is_serving = rw (found, read, connects) refl;
          on_queue = refl;
          registered = found;
          on_connection = refl;
          refresh = refl;
        },
      )
      | inr (unknown, absent) ↦
          inr (subst (λ queues. is_in queue queues ≡ false) registry-queues unknown, rw absent refl)
    ]
