-- ===== src/Dashboard/Lifespan/Containers.antt =====
-- The dashboard over containers (dashboard/app.py with workers/docker_supervisor.py).
use warden_demo_workload.Prelude.{String, ◌≡◌, false, Option, some, List, [], ◌∷◌, ◌⊎◌}
use warden_demo_workload.Common.Constants.{all_task_queues}
use warden_demo_workload.Common.Config.{Config}
use warden_demo_workload.Python.Value.{Attempt, PyError}
use warden_demo_workload.Workers.Backend.{containers}
use warden_demo_workload.Workers.Containers.{Docker, lookup, or_absent}
use warden_demo_workload.Workers.Containers.States.{brought_up, brought_down, MayRaise, Brings}
use warden_demo_workload.Workers.Supervisor.{is_in}
use warden_demo_workload.Dashboard.{Response, not_found, bad_request, reported, failed}
use warden_demo_workload.Dashboard.Lifespan.{Event, passing, request}

module _ (docker : Docker) where
  -- A request to the worker route, between two states of the containers: the status of the queue's
  -- container decides the response and the status after it.
  pub data Answered (q action : String) (w w' : docker.World) : Response → Type 0 where
    no_queue : is_in q all_task_queues ≡ false → w' ≡ w → Answered q action w w' not_found
    no_action :
        ¬ (action ≡ "stop")
        → ¬ (action ≡ "start")
        → ¬ (action ≡ "restart")
        → w' ≡ w
        → Answered q action w w' bad_request
    stopped :
        action ≡ "stop"
        → lookup docker q w' ≡ brought_down (lookup docker q w)
        → Answered q action w w' (reported (some (or_absent (brought_down (lookup docker q w)))))
    started :
        (action ≡ "start") ⊎ (action ≡ "restart")
        → lookup docker q w' ≡ brought_up (lookup docker q w)
        → Answered q action w w' (reported (some (or_absent (brought_up (lookup docker q w)))))
    broke : {e : PyError} → MayRaise action (lookup docker q w) → Answered q action w w' (failed e)

  -- The events while the application serves, with the responses and the containers at the end.
  pub data Served
      : List (Event (containers docker))
        → docker.World
        → List Response
        → docker.World
        → Type 0 where
    served_all : {w : docker.World} → Served [] w [] w
    changed :
        {events : List (Event (containers docker))} {w w' : docker.World} {rs : List Response}
        (change : docker.World → docker.World)
        → Served events (change w) rs w'
        → Served (passing change ∷ events) w rs w'
    answered :
        {q action : String} {events : List (Event (containers docker))} {w next w' : docker.World}
        {r : Response} {rs : List Response}
        → Answered q action w next r
        → Served events next rs w'
        → Served (request q action ∷ events) w (r ∷ rs) w'

  abbrev BringsFrom : String → docker.World → Option String → Attempt docker.World → String → Type 0
  BringsFrom q w status a action = Brings docker q status (MayRaise action (lookup docker q w)) a
