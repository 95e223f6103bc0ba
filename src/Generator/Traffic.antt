-- ===== src/Generator/Traffic.antt =====
-- generator.py: `order_loop` and `batch_loop`, turn by turn, without their pauses. The scenarios of a
-- turn, its draws and the server's answer to its start are the environment.
pub mod Lives
use Prim.Native.String.{◌++◌ as ◌⧺◌}
use warden_demo_workload.Prelude.{
  ℕ, ◌+◌, String, Bool, true, false, Option, List, [], ◌∷◌, ◌++◌, none,
}
use warden_demo_workload.Prelude.Int.{ℤ}
use warden_demo_workload.Common.Constants.{order_tq, batch_tq}
use warden_demo_workload.Common.Models.{OrderInput, BatchInput}
use warden_demo_workload.Common.SearchAttributes.{Pair}
use warden_demo_workload.Control.Schema.{Scenarios}
use warden_demo_workload.Python.Value.{Conversions, Result, ok, raised}
use warden_demo_workload.Generator.Fleet.{StartOutcome, started, already_started, failed}
use warden_demo_workload.Generator.Inputs.{
  Draws, order_input, order_attributes, batch_input, batch_attributes,
}

-- The arguments of `start_workflow`, with the server's answer; the timeout is in seconds.
pub record Start (A : Type 0) : Type 0 where
  pub workflow : String
  pub input : A
  pub id : String
  pub task_queue : String
  pub attributes : List Pair
  pub execution_timeout : Option ℕ
  pub outcome : StartOutcome

-- What a loop has done: the starts that it asked for, in order, how many of them succeeded (for
-- orders, `orders_started`), and whether an exception has ended it.
pub record Loop (A : Type 0) : Type 0 where
  pub succeeded : ℕ
  pub asked : List (Start A)
  pub died : Bool

abbrev pub fresh : {A : Type 0} → Loop A
fresh = record { succeeded = 0; asked = []; died = false }

-- Only a start that succeeds counts; every error of the start is caught.
abbrev pub counts : StartOutcome → ℕ
counts started = 1
counts already_started = 0
counts failed = 0

abbrev ask : {A : Type 0} → Start A → Loop A → Loop A
ask s l = record l { succeeded = l.succeeded + counts s.outcome; asked = l.asked ++ s ∷ [] }

-- What one turn of `order_loop` finds.
pub record OrderTurn : Type 0 where
  pub scenarios : Scenarios
  pub draws : Draws
  pub outcome : StartOutcome

unfoldable pub order_start : OrderInput → Option ℕ → StartOutcome → Start OrderInput
unfolding order_attributes
order_start inp timeout outcome = record {
  workflow = "OrderWorkflow";
  input = inp;
  id = "order-" ⧺ inp.order_id;
  task_queue = order_tq;
  attributes = order_attributes inp;
  execution_timeout = timeout;
  outcome = outcome;
}

unfoldable pub order_made :
    StartOutcome → Result (OrderInput × Option ℕ) → Loop OrderInput → Loop OrderInput
unfolding order_start
order_made outcome (raised e) l = record l { died = true }
order_made outcome (ok (inp, timeout)) l = ask (order_start inp timeout outcome) l

-- One turn: the input is made outside the `try`.
unfoldable pub order_turn : Conversions → Bool → OrderTurn → Loop OrderInput → Loop OrderInput
unfolding order_input order_made
order_turn cv tracking t l = order_made t.outcome (order_input cv tracking t.scenarios t.draws) l

abbrev pub unless_died : {A : Type 0} → Bool → Loop A → Loop A → Loop A
unless_died true old new = old
unless_died false old new = new

unfoldable pub order_loop : Conversions → Bool → List OrderTurn → Loop OrderInput → Loop OrderInput
unfolding order_turn
order_loop cv tracking [] l = l
order_loop cv tracking (t ∷ turns) l =
    order_loop cv tracking turns (unless_died l.died l (order_turn cv tracking t l))

-- What one turn of `batch_loop` finds; `size` is its draw from 5 to 10.
pub record BatchTurn : Type 0 where
  pub scenarios : Scenarios
  pub batch_id : String
  pub size : ℤ
  pub outcome : StartOutcome

unfoldable pub batch_start : BatchInput → StartOutcome → Start BatchInput
unfolding batch_attributes
batch_start inp outcome = record {
  workflow = "BatchAssignmentWorkflow";
  input = inp;
  id = "batch-" ⧺ inp.batch_id;
  task_queue = batch_tq;
  attributes = batch_attributes inp;
  execution_timeout = none;
  outcome = outcome;
}

unfoldable pub batch_made : StartOutcome → Result BatchInput → Loop BatchInput → Loop BatchInput
unfolding batch_start
batch_made outcome (raised e) l = record l { died = true }
batch_made outcome (ok inp) l = ask (batch_start inp outcome) l

unfoldable pub batch_turn : Conversions → BatchTurn → Loop BatchInput → Loop BatchInput
unfolding batch_input batch_made
batch_turn cv t l = batch_made t.outcome (batch_input cv t.scenarios t.batch_id t.size) l

unfoldable pub batch_loop : Conversions → List BatchTurn → Loop BatchInput → Loop BatchInput
unfolding batch_turn
batch_loop cv [] l = l
batch_loop cv (t ∷ turns) l = batch_loop cv turns (unless_died l.died l (batch_turn cv t l))
