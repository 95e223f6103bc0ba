-- ===== src/Workers/Supervisor.antt =====
-- workers/supervisor.py: one worker process for each task queue.
pub mod Fleet
pub mod Reference
pub mod Standalone
pub mod Stopping
mod Tests
use warden_demo_workload.Prelude.{
  String, ◌≡◌, Bool, true, false, not, Option, none, some, List, [], ◌∷◌, ◌==◌, if◌then◌else◌,
}
use warden_demo_workload.Common.Constants.{all_task_queues}
use warden_demo_workload.Python.Dict.{Dict, get, put}
use warden_demo_workload.Python.Value.{Result, ok, raised, value_error, ◌>>=◌}

-- What the supervisor uses of `subprocess`. `alive` is `poll() is None`, and `wait` with its timeout
-- tells whether the process has exited. The world changes only by these calls.
pub record Os : Type 1 where
  pub Process : Type 0
  pub World : Type 0
  pub alive : World → Process → Bool
  pub popen : List String → World → Process × World
  pub terminate : Process → World → World
  pub wait : Process → World → Bool × World
  pub kill : Process → World → World
  pub popen-alive :
      (args : List String) (w : World) → alive (popen args w).1 (popen args w).0 ≡ true
  pub popen-keeps :
      (args : List String) (w : World) (p : Process)
      → alive w p ≡ true
      → alive (popen args w).1 p ≡ true
  pub wait-exited : (p : Process) (w : World) → (wait p w).0 ≡ true → alive (wait p w).1 p ≡ false
  pub terminate-dead :
      (p q : Process) (w : World) → alive w q ≡ false → alive (terminate p w) q ≡ false
  pub wait-dead : (p q : Process) (w : World) → alive w q ≡ false → alive (wait p w).1 q ≡ false
  pub kill-dead : (p q : Process) (w : World) → alive w q ≡ false → alive (kill p w) q ≡ false

-- The fields of the class, and the world.
pub record Supervisor (os : Os) : Type 0 where
  pub queues : List String
  pub procs : Dict os.Process
  pub world : os.World

-- `queues or list(ALL_TASK_QUEUES)`
abbrev queues_or_all : Option (List String) → List String
queues_or_all none = all_task_queues
queues_or_all (some []) = all_task_queues
queues_or_all (some (q ∷ queues)) = q ∷ queues

-- `q in queues`
abbrev pub is_in : String → List String → Bool
is_in q [] = false
is_in q (x ∷ xs) = if x == q then true else is_in q xs

module _ (os : Os) where
  -- `__init__`
  unfoldable pub init : Option (List String) → os.World → Supervisor os
  init queues w = record { queues = queues_or_all queues; procs = []; world = w }

  -- `proc and proc.poll() is None`
  abbrev pub runs : os.World → Option os.Process → Bool
  runs w none = false
  runs w (some p) = os.alive w p

  unfoldable pub is_running : String → Supervisor os → Bool
  unfolding get
  is_running queue s = runs s.world (get s.procs queue)

  -- A new process, by the arguments after the interpreter, is the queue's.
  unfoldable pub launch : String → Supervisor os → Supervisor os
  unfolding put
  launch queue s =
      let (proc, w) = os.popen ("-m" ∷ "workers.run_worker" ∷ queue ∷ []) s.world in
      record s { procs = put s.procs queue proc; world = w }

  unfoldable pub start : String → Supervisor os → Result (Supervisor os)
  unfolding is_running launch
  start queue s =
      if is_in queue s.queues
      then ok (if is_running queue s then s else launch queue s)
      else raised value_error

  -- `terminate`, `wait`, and `kill` on a timeout, of a process that runs.
  abbrev end_process : os.Process → os.World → os.World
  end_process p w =
      let (exited, w') = os.wait p (os.terminate p w) in if exited then w' else os.kill p w'

  abbrev stop_process : Option os.Process → os.World → os.World
  stop_process none w = w
  stop_process (some p) w = if os.alive w p then end_process p w else w

  unfoldable pub stop : String → Supervisor os → Supervisor os
  unfolding get
  stop queue s = record s { world = stop_process (get s.procs queue) s.world }

  unfoldable pub restart : String → Supervisor os → Result (Supervisor os)
  unfolding start stop
  restart queue s = start queue (stop queue s)

  unfoldable pub start_each : List String → Supervisor os → Result (Supervisor os)
  unfolding start
  start_each [] s = ok s
  start_each (q ∷ queues) s = start q s >>= start_each queues

  unfoldable pub start_all : Supervisor os → Result (Supervisor os)
  unfolding start_each
  start_all s = start_each s.queues s

  unfoldable pub stop_each : Dict os.Process → Supervisor os → Supervisor os
  unfolding stop
  stop_each [] s = s
  stop_each ((q, p) ∷ rest) s = stop_each rest (stop q s)

  unfoldable pub stop_all : Supervisor os → Supervisor os
  unfolding stop_each
  stop_all s = stop_each s.procs s

  -- `states`
  unfoldable pub states_of : List String → Supervisor os → Dict String → Dict String
  unfolding is_running put
  states_of [] s d = d
  states_of (q ∷ queues) s d =
      states_of queues s (put d q (if is_running q s then "running" else "stopped"))

  unfoldable pub states : Supervisor os → Dict String
  unfolding states_of
  states s = states_of s.queues s []

  -- One pass of the standalone loop: any worker that has died is started again.
  unfoldable pub heal_each : List String → Supervisor os → Result (Supervisor os)
  unfolding is_running start
  heal_each [] s = ok s
  heal_each (q ∷ queues) s = (if is_running q s then ok s else start q s) >>= heal_each queues

  unfoldable pub heal : Supervisor os → Result (Supervisor os)
  unfolding heal_each
  heal s = heal_each s.queues s
