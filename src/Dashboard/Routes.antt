-- ===== src/Dashboard/Routes.antt =====
-- What the worker route reports (dashboard/app.py).
use warden_demo_workload.Prelude.{String, ◌≡◌, refl, true, some}
use warden_demo_workload.Common.Constants.{all_task_queues}
use warden_demo_workload.Python.Dict.{get}
use warden_demo_workload.Workers.Supervisor.{Os, Supervisor, is_in, is_running, states}
use warden_demo_workload.Workers.Supervisor.Fleet.{start-Started}
use warden_demo_workload.Workers.Backend.{processes}
use warden_demo_workload.Workers.Backend.States.{word_of, get-states}
use warden_demo_workload.Dashboard.{reported, worker_action}

module _ (os : Os) where
  -- On a supervisor of every queue, a request to start one that exists is answered with its state,
  -- which is that it runs; and it does run.
  worker_action-start :
      (q : String) (s : Supervisor os)
      → is_in q all_task_queues ≡ true
      → s.queues ≡ all_task_queues
      → let r = worker_action (processes os) q "start" s in
        (r.0 ≡ reported (some "running")) × (is_running os q r.1 ≡ true)
  unfolding worker_action
  worker_action-start q s known all =
      let started = start-Started os q s (rw all known) in
      let running : is_running os q started.after ≡ true = started.run.0 in
      let listed : is_in q started.after.queues ≡ true = rw (started.same, all) known in
      let told : get (states os started.after) q ≡ some (word_of os started.after q) =
        get-states os q started.after listed in
      rw (known, started.succeeds) (rw (told, running) (refl, refl))
