-- ===== src/Workflows/Order/Steps.antt =====
-- workflows/order.py: the fields of `OrderWorkflow`, its handler and its query, and the awaits of its run
-- on an environment of turns.
use warden_demo_workload.Prelude.{
  ℕ, suc, String, Bool, true, Option, none, some, List, [], ◌∷◌, ◌++◌, ◌==◌, if◌then◌else◌,
}
use warden_demo_workload.Common.Retry.{RetryPolicy}
use warden_demo_workload.Activities.Storm.{Sight}
use warden_demo_workload.Temporal.{Command, timer, Attempt, Outcome, ok, failed, Server}

-- What happens during one await: the `courier_assigned` signals that arrive, what the attempts of
-- an activity see, whether a signal is delivered or a child accepted, and the time afterwards.
pub record Turn : Type 0 where
  pub signals : List String
  pub sights : ℕ → Sight
  pub accepted : Bool
  pub now : ℕ

-- `self._courier_id` and `self._track_stages`; the turns to come; `workflow.now()`; the commands.
pub record Saga : Type 0 where
  pub courier_id : Option String
  pub track_stages : Bool
  pub turns : ℕ → Turn
  pub now : ℕ
  pub log : List Command

-- `__init__`, in an environment.
abbrev pub init : (ℕ → Turn) → ℕ → Saga
init turns now = record {
  courier_id = none;
  track_stages = true;
  turns = turns;
  now = now;
  log = [];
}

-- The signal handler `courier_assigned`.
unfoldable pub courier_assigned : String → Saga → Saga
courier_assigned courier s = record s { courier_id = some courier }

-- The handlers of the signals that arrive during one await.
unfoldable pub receive : List String → Saga → Saga
unfolding courier_assigned
receive [] s = s
receive (c ∷ signals) s = receive signals (courier_assigned c s)

-- The query `status`: an empty id counts as none.
unfoldable pub status : Saga → String
status s = elim s.courier_id [
  | none ↦ "pending"
  | some c ↦ if c == "" then "pending" else "assigned"
]

abbrev pub Step : Type 0 → Type 0
Step A = Saga → Outcome A × Saga

abbrev pub proceed : {A B : Type 0} → Outcome A → (A → Step B) → Step B
proceed (ok a) f s = f a s
proceed failed f s = (failed, s)

infixl 5 ◌>>=◌ ◌>>◌
abbrev pub ◌>>=◌ : {A B : Type 0} → Step A → (A → Step B) → Step B
◌>>=◌ m f s = let (r, s') = m s in proceed r f s'

abbrev pub ◌>>◌ : {A B : Type 0} → Step A → Step B → Step B
m >> n = m >>= λ _. n

abbrev pub pure : {A : Type 0} → A → Step A
pure a s = (ok a, s)

-- The state after an await on a command.
unfoldable pub after : Command → Saga → Saga
unfolding receive
after c s =
    let t = s.turns 0 in
    receive t.signals
      (record s { turns = λ n. s.turns (suc n); now = t.now; log = s.log ++ c ∷ [] })

-- `workflow.sleep`
abbrev pub sleep : ℕ → Step Unit
sleep seconds s = (ok tt, after (timer seconds) s)

-- `workflow.execute_activity`
abbrev pub execute_activity :
    {A : Type 0} → Server → Command → RetryPolicy → ℕ → ((ℕ → Sight) → ℕ → Attempt A) → Step A
execute_activity server command policy timeout body s =
    (server.execute policy timeout (body (s.turns 0).sights), after command s)

-- A signal to another workflow, with its failure caught.
abbrev pub signal_caught : Command → Step Unit
signal_caught command s = (ok tt, after command s)

abbrev accepted : Bool → Outcome Unit
accepted b = if b then ok tt else failed

-- `workflow.start_child_workflow`, which raises if the id is taken.
abbrev pub start_child : Command → Step Unit
start_child command s = (accepted (s.turns 0).accepted, after command s)

-- `workflow.upsert_search_attributes` is no await.
abbrev pub record_command : Command → Saga → Saga
record_command c s = record s { log = s.log ++ c ∷ [] }
