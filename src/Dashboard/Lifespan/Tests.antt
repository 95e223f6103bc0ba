-- ===== src/Dashboard/Lifespan/Tests.antt =====
-- The dashboard with settings that are complete, and a worker that is stopped and started.
use warden_demo_workload.Prelude.{
  ◌≡◌, refl, true, false, none, some, List, [], ◌∷◌, ◌==◌, if◌then◌else◌, ◌⊎◌, Bool, String, Option,
}
use warden_demo_workload.Common.Config.{Env, Connect, connect}
use warden_demo_workload.Common.Config.Reference.{any_number, settings, loaded, settings_load}
use warden_demo_workload.Generator.Fleet.{already_started}
use warden_demo_workload.Workers.Supervisor.Reference.{
  new_machine, prompt, prompt-IsPrompt, blackout,
}
use warden_demo_workload.Workers.Backend.{processes, containers}
use warden_demo_workload.Workers.Containers
use warden_demo_workload.Workers.Containers.Reference.{reference_docker}
use warden_demo_workload.Common.Constants.{worker_container_name}
use warden_demo_workload.Python.Value.{docker_error}
use warden_demo_workload.Dashboard.{failed, reported, bad_request, not_found}
use warden_demo_workload.Dashboard.Lifespan.{
  Event, passing, request, in_docker, is_ready, lifespan, serve, build_supervisor,
}
use warden_demo_workload.Dashboard.Lifespan.Endings.{Clean, Orphans, lifespan-ends}

test_process : in_docker settings ≡ false
unfolding in_docker
test_process = refl

abbrev compose : Env
compose name = if name == "SUPERVISOR_MODE" then some "Docker" else none

test_docker : in_docker compose ≡ true
unfolding in_docker
test_docker = refl

test_build : build_supervisor prompt reference_docker compose ≡ containers reference_docker
unfolding build_supervisor in_docker
test_build = refl

abbrev dials : Connect → Bool
dials c = true

-- A worker is stopped and started, all workers die, and one more is started.
abbrev day : List (Event (processes prompt))
day =
    request "order-tq" "stop"
    ∷ request "order-tq" "start"
    ∷ passing blackout
    ∷ request "menu-tq" "restart"
    ∷ []

lifespan-ends_example :
    ((is_ready (connect loaded) dials already_started ≡ true)
      × Clean prompt
          (lifespan (processes prompt) any_number settings dials already_started day new_machine))
    ⊎ ((is_ready (connect loaded) dials already_started ≡ false)
        × Orphans prompt
            (lifespan (processes prompt) any_number settings dials already_started day new_machine))
lifespan-ends_example =
    lifespan-ends prompt any_number settings loaded dials already_started day new_machine
      settings_load prompt-IsPrompt

-- A worker is stopped and started; another container is removed, and one paused, which cannot be
-- started; two requests are refused.
abbrev container_day : List (Event (containers reference_docker))
container_day =
    request "order-tq" "stop"
    ∷ request "order-tq" "start"
    ∷ passing (λ w n. if n == worker_container_name "menu-tq" then none else w n)
    ∷ request "menu-tq" "restart"
    ∷ passing (λ w n. if n == worker_container_name "order-tq" then some "paused" else w n)
    ∷ request "order-tq" "start"
    ∷ request "order-tq" "stop"
    ∷ request "menu-tq" "pause"
    ∷ request "lunch-tq" "stop"
    ∷ []

abbrev all_running : String → Option String
all_running n = some "running"

test_responses :
    (serve (containers reference_docker) container_day all_running).0
    ≡ reported (some "exited")
      ∷ reported (some "running")
      ∷ reported (some "absent")
      ∷ failed docker_error
      ∷ reported (some "paused")
      ∷ bad_request
      ∷ not_found
      ∷ []
unfolding serve Containers.states Containers.stop Containers.start Containers.restart
test_responses = refl
