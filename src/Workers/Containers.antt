-- ===== src/Workers/Containers.antt =====
-- workers/docker_supervisor.py: the same operations over containers.
pub mod Reference
pub mod States
use warden_demo_workload.Prelude.{
  String, ◌≡◌, Bool, false, Option, none, some, List, [], ◌∷◌, ◌==◌, if◌then◌else◌,
}
use warden_demo_workload.Common.Constants.{worker_container_name}
use warden_demo_workload.Python.Value.{Attempt, PyError}
use warden_demo_workload.Python.Dict.{Dict, put}

-- What the supervisor uses of the Docker client: `from_env`, which may raise; `status`, which is that of
-- a container after `reload`, or none where the lookup raises; and three calls that wait until they
-- are done, or raise. A call that returns leaves the container running, or exited; one that raises
-- may leave anything.
pub record Docker : Type 1 where
  pub World : Type 0
  pub from_env : World → Option PyError
  pub status : World → String → Option String
  pub start : String → World → Attempt World
  pub stop : String → World → Attempt World
  pub restart : String → World → Attempt World
  pub start-status :
      (name state : String) (w : World)
      → status w name ≡ some state
      → (start name w).0 ≡ none
      → status (start name w).1 name ≡ some "running"
  pub stop-status :
      (name state : String) (w : World)
      → status w name ≡ some state
      → (stop name w).0 ≡ none
      → status (stop name w).1 name ≡ some "exited"
  pub restart-status :
      (name state : String) (w : World)
      → status w name ≡ some state
      → (restart name w).0 ≡ none
      → status (restart name w).1 name ≡ some "running"

-- `container is not None and container.status == "running"`
abbrev pub is_up : Option String → Bool
is_up none = false
is_up (some state) = state == "running"

-- `container.status if container is not None else "absent"`
abbrev pub or_absent : Option String → String
or_absent none = "absent"
or_absent (some state) = state

module _ (docker : Docker) where
  -- The container of a queue, by its status: `_get`.
  unfoldable pub lookup : String → docker.World → Option String
  unfolding worker_container_name
  lookup queue w = docker.status w (worker_container_name queue)

  abbrev pub start_found : Option String → String → docker.World → Attempt docker.World
  start_found none name w = (none, w)
  start_found (some state) name w = if state == "running" then (none, w) else docker.start name w

  unfoldable pub start : String → docker.World → Attempt docker.World
  unfolding lookup
  start queue w = start_found (lookup queue w) (worker_container_name queue) w

  abbrev pub stop_found : Option String → String → docker.World → Attempt docker.World
  stop_found none name w = (none, w)
  stop_found (some state) name w = if state == "running" then docker.stop name w else (none, w)

  unfoldable pub stop : String → docker.World → Attempt docker.World
  unfolding lookup
  stop queue w = stop_found (lookup queue w) (worker_container_name queue) w

  abbrev pub restart_found : Option String → String → docker.World → Attempt docker.World
  restart_found none name w = (none, w)
  restart_found (some state) name w = docker.restart name w

  unfoldable pub restart : String → docker.World → Attempt docker.World
  unfolding lookup
  restart queue w = restart_found (lookup queue w) (worker_container_name queue) w

  unfoldable pub is_running : String → docker.World → Bool
  unfolding lookup
  is_running queue w = is_up (lookup queue w)

  unfoldable pub states_of : List String → docker.World → Dict String → Dict String
  unfolding lookup put
  states_of [] w d = d
  states_of (q ∷ queues) w d = states_of queues w (put d q (or_absent (lookup q w)))

  -- `states`, of the supervisor's queues.
  unfoldable pub states : List String → docker.World → Dict String
  unfolding states_of
  states queues w = states_of queues w []
