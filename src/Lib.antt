-- ===== src/Lib.antt =====
-- Warden demo workload: a fleet of Temporal workflows for a delivery service, with faults
-- that a presenter switches on and off.
--
-- The program and its model. Orders, dispatch regions, courier shifts and batches are
-- workflows; a control workflow holds the fault scenarios, which a dashboard writes and
-- reads; the generator keeps the entities (regions, menus, the control workflow, a fleet of
-- shifts) going, starts the traffic and relays one of the faults; a supervisor runs one
-- worker process for each task queue. An order signals its region, the region answers with a
-- courier, couriers report to the region, and the entities bound their history by
-- continue-as-new. Which file models which part:
--
--   Workflows/Order: workflows/order.py. `run` is a state-passing function over awaits; the
--     environment gives each await the signals that arrive, what the attempts of an activity
--     see, and the time. `accept`, `collect` and `deliver` are consecutive parts of the
--     source's `run`. Order/Timeline says, of the environment alone, which courier has been
--     signalled last and what the time is at each point, and Order/Passage that the states of
--     a run are as it says.
--   Workflows/Dispatch: workflows/dispatch.py. The loop of `run` as a machine whose points
--     are its awaits. An activation brings signals and the history length, and may complete
--     the await; `run_from` goes through a list of them within one run. Dispatch/Lifetime is
--     the entity across continue-as-new: the state with which a run ends begins the next one.
--     Dispatch/Early adds signals that a run handles before it begins.
--   Workflows/Courier: workflows/courier.py, in the same way, with Courier/Lifetime.
--     Courier/Reports and Courier/Drains are about what a shift tells its region,
--     Courier/Fate about one that is told to end, and Dispatch/Supply about where the
--     couriers of an answer come from.
--   Deliveries: a list of orders and one region's entity together; what the orders signal is
--     what the entity receives. Deliveries/Outings has the shifts of some couriers and their
--     region together in the same way.
--   EntityHistory: the generator's relay and the regions together; what the relay sends is
--     what the regions' entities receive. Dispatch/Flags is about the degradation that a
--     region runs by.
--   RetryStorm: the dashboard, demo-control, one worker's refresher and the payments
--     together; demo-control and the refresher take turns in any order.
--   Workflows/Batch: workflows/batch.py and workflows/candidate.py. Python's stable sort is
--     written out as an insertion sort.
--   Control: control/schema.py, control/workflow.py and control/cache.py.
--     Control/Workflow/Lifetime is the chain of runs against a map from scenarios to their
--     states.
--   Activities: the bodies in activities/. Activities/Storm is about `authorize_payment`
--     under its retry policy.
--   Workflows/Settlement and Workflows/Menu: workflows/settlement.py and workflows/menu.py.
--   Generator: generator.py. Generator/Entities has the start of `run` and the keepalive
--     loop, Generator/Fleet the couriers' loop, Generator/Traffic the loops of orders and
--     batches, Generator/Inputs what one of their turns starts, for given random draws, and
--     Generator/Relay `control_loop`. Generator/Run has `run`, with the five loops side by
--     side: a run is a sequence of turns in any order, and the scenarios are what the loops
--     share.
--   Dashboard: dashboard/app.py: the worker route, the routes of the scenarios, the health
--     route with its estimate of the actions of an order, the loop that terminates the
--     regions, and `lifespan` over either supervisor, with what becomes of the processes in
--     Lifespan/Endings and of the containers in Lifespan/Containers.
--   Workers/Supervisor and Workers/Containers: workers/supervisor.py and
--     workers/docker_supervisor.py; Supervisor/Standalone is the main program of the former.
--     Workers/Backend has the operations that both have, which the dashboard takes as a
--     parameter. Workers/Registry: workers/registry.py. Workers/Entry: workers/run_worker.py.
--   Scripts/Register and Scripts/Visibility: scripts/register_search_attributes.py and
--     scripts/visibility_demo.py.
--   Common: common/constants.py, models.py, retry.py and search_attributes.py; Common/Config:
--     config.py and connection.py.
--   Python: dictionaries, JSON values and their conversions. Temporal: commands, and the
--     interface of the server. Prelude: shared names.
--
-- Numbers. Floats stand as whole numbers of millionths, so nothing is said of rounding.
-- Python's integers are unbounded and so are those of the model. Times are in seconds.
--
-- Loops and fuel. A workflow's endless loop is cut at its awaits, and a theorem holds for
-- every list of activations; a loop of the generator or the supervisor goes through a list of
-- what its turns find. In the model of a chain of runs, each run begins before it handles its
-- signals. In workflows/dispatch.py `run` replaces what the handlers of earlier signals have
-- written, and Dispatch/Early has the chain with such signals; control/workflow.py does the
-- same, and there they are left out. Only `Constants.show` and the reference server run on
-- fuel: `show n` has `suc n` units, and a number has no more digits than that; the server has
-- one unit for each attempt that the policy allows.
--
-- Parameters. The Temporal SDK is not in the repository. `Temporal.Server` is what the
-- workflows rely on of its activities: attempts are made again after a retryable error or a
-- timeout, up to the policy's limit. Temporal/Reference has a server that meets it.
-- `Entities.Cluster` is what the generator relies on of the open executions, and
-- Entities/Reference has one. `Supervisor.Os` is the same for Python's `subprocess`,
-- `Containers.Docker` for the Docker client, each call of which may raise, and
-- `Value.Conversions` for Python's parsing and printing of values. A signal to another
-- workflow whose failure the code catches is a command that always goes on. Random draws and
-- generated ids are arguments.
--
-- Not modelled: the dashboard's static page and the rounding of its estimate; the pauses of
-- the loops; the log; the SDK's client and worker themselves. Replay and cancellation belong
-- to the SDK, and so does the execution timeout that the generator gives an order while the
-- timeout spike is on: an order's run is modelled without one.
pub mod Activities
pub mod Common
pub mod Control
pub mod Dashboard
pub mod Deliveries
pub mod EntityHistory
pub mod Generator
pub mod Prelude
pub mod Python
pub mod RetryStorm
pub mod Scripts
pub mod Temporal
pub mod Workers
pub mod Workflows
