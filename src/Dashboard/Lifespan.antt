-- ===== src/Dashboard/Lifespan.antt =====
-- dashboard/app.py: `_build_supervisor`, and `lifespan` with the supervisor that it builds, from the
-- start to the end of the application. What happens to the workers while it serves, and the requests
-- to the worker route, are a list of events.
pub mod Containers
pub mod Endings
mod Tests
use warden_demo_workload.Prelude.{
  Bool, true, false, ◌&&◌, Option, none, some, String, List, [], ◌∷◌,
}
use warden_demo_workload.Python.Value.{Conversions, Result, ok, raised, PyError, ◌>>=◌}
use warden_demo_workload.Common.Config.{
  Env, Config, Connect, get_or, codes, lower, same_text, load_config, connect,
}
use warden_demo_workload.Generator.Fleet.{StartOutcome, started, already_started, failed}
use warden_demo_workload.Workers.Backend.{Backend, processes, containers}
use warden_demo_workload.Workers.Containers.{Docker}
use warden_demo_workload.Workers.Supervisor.{Os}
use warden_demo_workload.Dashboard.{Response, worker_action}

-- Whether the supervisor is the one of containers.
unfoldable pub in_docker : Env → Bool
unfolding lower
in_docker env =
    same_text (lower (codes (get_or (env "SUPERVISOR_MODE") "process"))) (codes "docker")

-- Only `WorkflowAlreadyStartedError` is caught.
abbrev pub ensured : StartOutcome → Bool
ensured started = true
ensured already_started = true
ensured failed = false

-- Whether the start ends without an exception: the settings are there, the SDK connects, and the
-- control workflow is started or open.
abbrev pub is_ready : Option Connect → (Connect → Bool) → StartOutcome → Bool
is_ready none dials outcome = false
is_ready (some c) dials outcome = dials c && ensured outcome

-- `_build_supervisor`
abbrev pub chosen : Os → Docker → Bool → Backend
chosen os docker true = containers docker
chosen os docker false = processes os

abbrev pub build_supervisor : Os → Docker → Env → Backend
unfolding in_docker
build_supervisor os docker env = chosen os docker (in_docker env)

module _ (b : Backend) where
  -- While the application serves: its workers change in some way, or a request comes.
  pub data Event : Type 0 where
    passing : (b.World → b.World) → Event
    request : String → String → Event

  -- What it comes to: an exception before `start_all` is over, one after that, or an end, with the
  -- responses.
  pub data Ending : Type 0 where
    unstarted : PyError → Ending
    broken_off : b.State → Ending
    ended : List Response → b.State → Ending

  unfoldable pub serve : List Event → b.State → List Response × b.State
  unfolding worker_action
  serve [] s = ([], s)
  serve (passing change ∷ events) s = serve events (b.happen change s)
  serve (request queue action ∷ events) s =
      let (r, s') = worker_action b queue action s in
      let (rs, s'') = serve events s' in (r ∷ rs, s'')

  -- The `yield`, and `finally`.
  unfoldable pub served : List Event → b.State → Ending
  unfolding serve
  served events s = let (rs, s') = serve events s in ended rs (b.stop_all s')

  -- From the result of `start_all` on.
  abbrev pub brought_up : Bool → List Event → Result b.State → Ending
  unfolding served
  brought_up ready events (raised e) = unstarted e
  brought_up true events (ok s) = served events s
  brought_up false events (ok s) = broken_off s

  abbrev pub configured :
      (Connect → Bool) → StartOutcome → List Event → b.World → Result Config → Ending
  unfolding connect brought_up
  configured dials outcome events w (raised e) = unstarted e
  configured dials outcome events w (ok config) =
      brought_up (is_ready (connect config) dials outcome) events (b.init w >>= b.start_all)

  -- For the supervisor that is built.
  unfoldable pub lifespan :
      Conversions → Env → (Connect → Bool) → StartOutcome → List Event → b.World → Ending
  unfolding load_config configured
  lifespan cv env dials outcome events w = configured dials outcome events w (load_config cv env)
