-- ===== src/Workers/Backend/States.antt =====
-- What `states` tells of a queue, for either supervisor (workers/supervisor.py,
-- workers/docker_supervisor.py).
use warden_demo_workload.Prelude.{
  String, ◌≡◌, refl, ap, ◌∙◌, true, some, List, [], ◌∷◌, ◌==◌, if◌then◌else◌, arith, eq_iff,
  Bool-cases, inl, inr,
}
use warden_demo_workload.Common.Constants.{all_task_queues}
use warden_demo_workload.Python.Dict.{Dict, get, put, get-put}
use warden_demo_workload.Workers.Containers.{Docker, lookup, or_absent}
use warden_demo_workload.Workers.Containers
use warden_demo_workload.Workers.Supervisor.{Os, Supervisor, is_in, is_running}
use warden_demo_workload.Workers.Supervisor

-- A dictionary with a word for each queue, put one after the other.
abbrev filled : (String → String) → List String → Dict String → Dict String
filled word [] d = d
filled word (q ∷ queues) d = filled word queues (put d q (word q))

get-filled :
    (word : String → String) (queues : List String) (d : Dict String) (q : String)
    → get (filled word queues d) q ≡ (if is_in q queues then some (word q) else get d q)
get-filled word [] d q = refl
get-filled word (x ∷ queues) d q = elim (Bool-cases (x == q)) [
  | inr other ↦ rw (get-filled word queues (put d x (word x)) q, get-put d x q (word x), other) refl
  | inl here ↦
      let e : x ≡ q = (eq_iff x q).0 here in
      rw (get-filled word queues (put d x (word x)) q, get-put d x q (word x), here, e)
        (ground arith)
]

-- A queue of the list has its word.
get-filled_listed :
    (word : String → String) (queues : List String) (q : String)
    → is_in q queues ≡ true
    → get (filled word queues []) q ≡ some (word q)
get-filled_listed word queues q listed = rw (get-filled word queues [] q, listed) refl

module _ (os : Os) where
  -- The state of a queue as the class of processes words it.
  abbrev pub word_of : Supervisor os → String → String
  word_of s q = if is_running os q s then "running" else "stopped"

  states_of-filled :
      (queues : List String) (s : Supervisor os) (d : Dict String)
      → Supervisor.states_of os queues s d ≡ filled (word_of s) queues d
  unfolding Supervisor.states_of
  states_of-filled [] s d = refl
  states_of-filled (q ∷ queues) s d = states_of-filled queues s (put d q (word_of s q))

  -- What `states` tells of a queue of the supervisor is whether its worker runs.
  pub get-states :
      (q : String) (s : Supervisor os)
      → is_in q s.queues ≡ true
      → get (Supervisor.states os s) q ≡ some (word_of s q)
  unfolding Supervisor.states
  get-states q s listed =
      ap (λ d. get d q) (states_of-filled s.queues s [])
      ∙ get-filled_listed (word_of s) s.queues q listed

module _ (docker : Docker) where
  status_of : docker.World → String → String
  status_of w q = or_absent (lookup docker q w)

  containers-filled :
      (queues : List String) (w : docker.World) (d : Dict String)
      → Containers.states_of docker queues w d ≡ filled (status_of w) queues d
  unfolding Containers.states_of status_of
  containers-filled [] w d = refl
  containers-filled (q ∷ queues) w d = containers-filled queues w (put d q (status_of w q))

  -- What `states` tells of a queue is the status of its container, or that there is none.
  pub get-states_containers :
      (q : String) (w : docker.World)
      → is_in q all_task_queues ≡ true
      → get (Containers.states docker all_task_queues w) q ≡ some (or_absent (lookup docker q w))
  unfolding Containers.states status_of
  get-states_containers q w listed =
      ap (λ d. get d q) (containers-filled all_task_queues w [])
      ∙ get-filled_listed (status_of w) all_task_queues q listed
