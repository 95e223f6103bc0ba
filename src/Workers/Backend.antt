-- ===== src/Workers/Backend.antt =====
-- What the dashboard asks of either supervisor (workers/supervisor.py, workers/docker_supervisor.py).
pub mod Laws
pub mod States
use warden_demo_workload.Prelude.{String, Option, none, some}
use warden_demo_workload.Common.Constants.{all_task_queues}
use warden_demo_workload.Python.Dict.{Dict}
use warden_demo_workload.Python.Value.{Result, ok, raised, PyError, Attempt}
use warden_demo_workload.Workers.Containers.{Docker}
use warden_demo_workload.Workers.Containers
use warden_demo_workload.Workers.Supervisor.{Os, Supervisor}
use warden_demo_workload.Workers.Supervisor

-- The operations that both classes have. `happen` is what the world does to the state.
pub record Backend : Type 1 where
  pub World : Type 0
  pub State : Type 0
  pub init : World → Result State
  pub happen : (World → World) → State → State
  pub start : String → State → Attempt State
  pub stop : String → State → Attempt State
  pub restart : String → State → Attempt State
  pub states : State → Dict String
  pub start_all : State → Result State
  pub stop_all : State → State

-- The state that an exception leaves comes first.
abbrev pub attempted : {S : Type 0} → S → Result S → Attempt S
attempted s (ok s') = (none, s')
attempted s (raised e) = (some e, s)

-- The class of processes; an exception in `restart` comes after its `stop`.
abbrev pub processes : Os → Backend
processes os = record {
  World = os.World;
  State = Supervisor os;
  init = λ w. ok (Supervisor.init os none w);
  happen = λ change s. record s { world = change s.world };
  start = λ q s. attempted s (Supervisor.start os q s);
  stop = λ q s. (none, Supervisor.stop os q s);
  restart = λ q s. attempted (Supervisor.stop os q s) (Supervisor.restart os q s);
  states = Supervisor.states os;
  start_all = Supervisor.start_all os;
  stop_all = Supervisor.stop_all os;
}

-- The construction of a client.
abbrev pub constructed : {S : Type 0} → Option PyError → S → Result S
constructed none s = ok s
constructed (some e) s = raised e

-- The class of containers, whose operations raise what the client raises, and whose `start_all` and
-- `stop_all` do nothing.
abbrev pub containers : Docker → Backend
containers docker = record {
  World = docker.World;
  State = docker.World;
  init = λ w. constructed (docker.from_env w) w;
  happen = λ change w. change w;
  start = Containers.start docker;
  stop = Containers.stop docker;
  restart = Containers.restart docker;
  states = Containers.states docker all_task_queues;
  start_all = ok;
  stop_all = λ w. w;
}
