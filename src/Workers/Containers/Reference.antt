-- ===== src/Workers/Containers/Reference.antt =====
-- Containers that meet the interface of Workers/Containers.antt: a status for each name.
use warden_demo_workload.Prelude.{
  String, ◌≡◌, refl, Option, none, some, ◌==◌, eq_refl, if◌then◌else◌, Bool, false, true,
}
use warden_demo_workload.Python.Value.{Attempt, docker_error}
use warden_demo_workload.Workers.Containers.{Docker}

-- A container that exists takes a new status.
abbrev pub become : String → Option String → Option String
become state none = none
become state (some old) = some state

abbrev pub change : String → String → (String → Option String) → String → Option String
change state name w n = if name == n then become state (w n) else w n

pub change-status :
    (state name old : String) (w : String → Option String)
    → w name ≡ some old
    → change state name w name ≡ some state
change-status state name old w found = rw (eq_refl name, found) refl

-- A container that is paused cannot be started.
abbrev pub is_paused : Option String → Bool
is_paused none = false
is_paused (some state) = state == "paused"

abbrev pub start_free : Bool → String → (String → Option String) → Attempt (String → Option String)
start_free true name w = (some docker_error, w)
start_free false name w = (none, change "running" name w)

pub start_free-status :
    (paused : Bool) (name state : String) (w : String → Option String)
    → w name ≡ some state
    → (start_free paused name w).0 ≡ none
    → (start_free paused name w).1 name ≡ some "running"
start_free-status true name state w found done = cc done
start_free-status false name state w found done = change-status "running" name state w found

abbrev pub reference_docker : Docker
reference_docker = record {
  World = String → Option String;
  status = λ w n. w n;
  from_env = λ w. none;
  start = λ name w. start_free (is_paused (w name)) name w;
  stop = λ name w. (none, change "exited" name w);
  restart = λ name w. (none, change "running" name w);
  start-status =
      λ name state w found done. start_free-status (is_paused (w name)) name state w found done;
  stop-status = λ name state w found done. change-status "exited" name state w found;
  restart-status = λ name state w found done. change-status "running" name state w found;
}
