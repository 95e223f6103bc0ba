-- ===== src/Workers/Backend/Laws.antt =====
-- What the dashboard relies on of a supervisor (workers/supervisor.py, workers/docker_supervisor.py).
use warden_demo_workload.Prelude.{String, ◌≡◌, refl, ◌∙◌, true, none}
use warden_demo_workload.Common.Constants.{all_task_queues}
use warden_demo_workload.Workers.Backend.{Backend, attempted, processes}
use warden_demo_workload.Python.Value.{Attempt}
use warden_demo_workload.Workers.Supervisor.{Os, Supervisor, is_in}
use warden_demo_workload.Workers.Supervisor
use warden_demo_workload.Workers.Supervisor.Fleet.{start-Started}

-- No exception, and a state that satisfies a predicate.
abbrev pub Succeeds : {S : Type 0} → (S → Type 0) → Attempt S → Type 0
Succeeds P (error, s) = (error ≡ none) × P s

-- From a state that knows every queue, the operations on a queue that exists raise nothing, and every
-- operation leaves such a state.
pub record Laws (b : Backend) (Known : b.State → Type 0) : Type 0 where
  pub happen-Known :
      (change : b.World → b.World) (s : b.State) → Known s → Known (b.happen change s)
  pub start-Known :
      (q : String) (s : b.State)
      → is_in q all_task_queues ≡ true
      → Known s
      → Succeeds Known (b.start q s)
  pub stop-Known : (q : String) (s : b.State) → Known s → Succeeds Known (b.stop q s)
  pub restart-Known :
      (q : String) (s : b.State)
      → is_in q all_task_queues ≡ true
      → Known s
      → Succeeds Known (b.restart q s)

abbrev pub KnowsAll : (os : Os) → Supervisor os → Type 0
KnowsAll os s = s.queues ≡ all_task_queues

process_start :
    (os : Os) (q : String) (s t : Supervisor os)
    → is_in q all_task_queues ≡ true
    → KnowsAll os t
    → Succeeds (KnowsAll os) (attempted s (Supervisor.start os q t))
process_start os q s t known all =
    let started = start-Started os q t (rw all known) in
    rw started.succeeds (refl, started.same ∙ all)

pub processes-Laws : (os : Os) → Laws (processes os) (KnowsAll os)
unfolding Supervisor.init Supervisor.stop Supervisor.restart
processes-Laws os = record {
  happen-Known = λ change s h. h;
  start-Known = λ q s known h. process_start os q s s known h;
  stop-Known = λ q s h. (refl, h);
  restart-Known =
      λ q s known h. process_start os q (Supervisor.stop os q s) (Supervisor.stop os q s) known h;
}
