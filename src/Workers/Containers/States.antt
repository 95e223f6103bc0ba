-- ===== src/Workers/Containers/States.antt =====
-- What the operations on containers bring them to (workers/docker_supervisor.py).
use warden_demo_workload.Prelude.{
  String, ◌≡◌, ◌≢◌, ◌⊎◌, ◌∙◌, ap, sym, subst, refl, Option, none, some, ◌==◌, if◌then◌else◌, eq_iff,
  Bool-cases, Option-cases, inl, inr,
}
use warden_demo_workload.Common.Constants.{worker_container_name}
use warden_demo_workload.Python.Value.{Attempt, PyError}
use warden_demo_workload.Workers.Containers.{
  Docker, lookup, start, stop, restart, start_found, stop_found, restart_found,
}

-- The status of a container, if there is one, that is started, and of one that is stopped.
abbrev pub brought_up : Option String → Option String
brought_up none = none
brought_up (some state) = some "running"

abbrev pub brought_down : Option String → Option String
brought_down none = none
brought_down (some state) = some (if state == "running" then "exited" else state)

-- Where a call of the client is made, by the operation and the status, so that it may raise.
pub data MayRaise : String → Option String → Type 0 where
  stopping : MayRaise "stop" (some "running")
  starting : {state : String} → state ≢ "running" → MayRaise "start" (some state)
  restarting : {state : String} → MayRaise "restart" (some state)

-- An operation brings the queue's container to a status, or it raises, which it may.
abbrev pub Brings :
    (docker : Docker) → String → Option String → Type 0 → Attempt docker.World → Type 0
Brings docker q expected may a =
    ((a.0 ≡ none) × (lookup docker q a.1 ≡ expected)) ⊎ ((e : PyError) × (a.0 ≡ some e) × may)

module _ (docker : Docker) (q : String) (w : docker.World) where
  called-Brings :
      (a : Attempt docker.World) (expected : Option String) (may : Type 0)
      → (a.0 ≡ none → lookup docker q a.1 ≡ expected)
      → may
      → Brings docker q expected may a
  called-Brings a expected may returned raises = elim (Option-cases a.0) [
    | inl done ↦ inl (done, returned done)
    | inr (e, broke) ↦ inr (e, broke, raises)
  ]

  start_found-Brings :
      (found : Option String)
      → lookup docker q w ≡ found
      → Brings docker q
          (brought_up found)
          (MayRaise "start" found)
          (start_found docker found (worker_container_name q) w)
  unfolding lookup
  start_found-Brings none absent = inl (refl, absent)
  start_found-Brings (some state) found = elim (Bool-cases (state == "running")) [
    | inl up ↦ rw up (inl (refl, found ∙ ap some ((eq_iff state "running").0 up)))
    | inr down ↦ rw down (
        called-Brings (docker.start (worker_container_name q) w) (some "running") _
          (docker.start-status (worker_container_name q) state w found)
          (starting (λ e. cc (down, (eq_iff state "running").1 e))))
  ]

  stop_found-Brings :
      (found : Option String)
      → lookup docker q w ≡ found
      → Brings docker q
          (brought_down found)
          (MayRaise "stop" found)
          (stop_found docker found (worker_container_name q) w)
  unfolding lookup
  stop_found-Brings none absent = inl (refl, absent)
  stop_found-Brings (some state) found = elim (Bool-cases (state == "running")) [
    | inr down ↦ rw down (inl (refl, found))
    | inl up ↦ rw up (
        called-Brings (docker.stop (worker_container_name q) w) (some "exited") _
          (docker.stop-status (worker_container_name q) state w found)
          (subst (λ s. MayRaise "stop" (some s)) (sym ((eq_iff state "running").0 up)) stopping))
  ]

  restart_found-Brings :
      (found : Option String)
      → lookup docker q w ≡ found
      → Brings docker q
          (brought_up found)
          (MayRaise "restart" found)
          (restart_found docker found (worker_container_name q) w)
  unfolding lookup
  restart_found-Brings none absent = inl (refl, absent)
  restart_found-Brings (some state) found =
      called-Brings (docker.restart (worker_container_name q) w) (some "running") _
        (docker.restart-status (worker_container_name q) state w found) restarting

  -- The operations, from the status that the container has.
  pub start-Brings :
      Brings docker q
        (brought_up (lookup docker q w))
        (MayRaise "start" (lookup docker q w))
        (start docker q w)
  unfolding start
  start-Brings = start_found-Brings (lookup docker q w) refl

  pub stop-Brings :
      Brings docker q
        (brought_down (lookup docker q w))
        (MayRaise "stop" (lookup docker q w))
        (stop docker q w)
  unfolding stop
  stop-Brings = stop_found-Brings (lookup docker q w) refl

  pub restart-Brings :
      Brings docker q
        (brought_up (lookup docker q w))
        (MayRaise "restart" (lookup docker q w))
        (restart docker q w)
  unfolding restart
  restart-Brings = restart_found-Brings (lookup docker q w) refl
