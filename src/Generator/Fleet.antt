-- ===== src/Generator/Fleet.antt =====
-- generator.py: `courier_loop` and `_start_courier`. The random draws and the server's answers are
-- the environment of a turn; a signal that fails is swallowed, so its fate is none of the loop's.
pub mod Growth
pub mod Shifts
pub mod Decline
pub mod Names
mod Tests
use Prim.Native.String.{◌++◌ as ◌⧺◌}
use warden_demo_workload.Prelude.{
  ℕ, zero, suc, ◌+◌, ◌%◌, String, Bool, true, false, Option, none, some, List, [], ◌∷◌, ◌++◌, ltb,
  leb, if◌then◌else◌, length,
}
use warden_demo_workload.Prelude.Int.{ℤ, pos, negsuc, ltb_ℤ}
use warden_demo_workload.Common.Constants.{show, courier_id, courier_tq}
use warden_demo_workload.Common.Models.{CourierState}
use warden_demo_workload.Common.SearchAttributes.{Pair}
use warden_demo_workload.Python.Value.{Micro}
use warden_demo_workload.Generator.Inputs.{courier_input, courier_attributes}
use warden_demo_workload.Workflows.Courier.{Signal, location_ping, assignment, end_shift}

-- What `start_workflow` comes to: a new execution, `WorkflowAlreadyStartedError`, or another error.
pub data StartOutcome : Type 0 where
  started already_started failed : StartOutcome

-- What one call of `_start_courier` draws, and the server's answer.
pub record Hire : Type 0 where
  pub suffix : String
  pub region : String
  pub vehicle : String
  pub outcome : StartOutcome

-- The requests to the server: a start, by id, queue, input and attributes, with its answer, or a
-- signal, by id.
pub data Request : Type 0 where
  start : String → String → CourierState → List Pair → StartOutcome → Request
  signal : String → Signal → Request

-- `_couriers`, `_courier_seq`, and the requests made so far.
pub record Fleet : Type 0 where
  pub couriers : List String
  pub courier_seq : ℕ
  pub sent : List Request

-- `__init__`
abbrev pub init : Fleet
init = record { couriers = []; courier_seq = 0; sent = [] }

-- The end of the `try`: an execution that is there already counts as the courier's.
abbrev pub enroll : StartOutcome → String → List String → List String
enroll started cid couriers = couriers ++ cid ∷ []
enroll already_started cid couriers = couriers ++ cid ∷ []
enroll failed cid couriers = couriers

-- `f"{self._courier_seq}-{uuid.uuid4().hex[:6]}"`
unfoldable pub new_id : ℕ → String → String
new_id seq suffix = show seq ⧺ "-" ⧺ suffix

-- `_start_courier`
unfoldable pub start_courier : Hire → Fleet → Fleet
unfolding courier_input courier_attributes
start_courier h f =
    let seq = f.courier_seq + 1 in
    let cid = new_id seq h.suffix in
    record {
      couriers = enroll h.outcome cid f.couriers;
      courier_seq = seq;
      sent =
          f.sent
          ++ start (courier_id cid) courier_tq (courier_input cid h.region h.vehicle)
              (courier_attributes cid h.region h.vehicle) h.outcome
            ∷ [];
    }

-- `len(self._couriers) < size`
abbrev pub short_of : ℤ → List String → Bool
short_of size couriers = ltb_ℤ (pos (length couriers)) size

-- The first loop, with as many turns as there are hires; none when it is not over by then.
unfoldable pub bring_up : ℤ → List Hire → Fleet → Option Fleet
unfolding start_courier
bring_up size [] f = if short_of size f.couriers then none else some f
bring_up size (h ∷ hires) f =
    let rest = bring_up size hires (start_courier h f) in
    if short_of size f.couriers then rest else some f

-- What one turn of the second loop draws: the two fractions of a degree for each ping, whether to
-- hand out an assignment, to which courier and which, and a hire.
pub record Tick : Type 0 where
  pub fractions : ℕ → ℕ × ℕ
  pub chance : Micro
  pub pick : ℕ
  pub order : String
  pub hire : Hire

-- The pings, near 37 degrees north and 122 west.
unfoldable pub ping_all : (ℕ → ℕ × ℕ) → List String → List Request
ping_all fractions [] = []
ping_all fractions (cid ∷ couriers) =
    signal (courier_id cid)
      (location_ping (pos (37000000 + (fractions 0).0)) (negsuc (121999999 + (fractions 0).1)))
    ∷ ping_all (λ n. fractions (suc n)) couriers

-- `random.choice`, by a number that is drawn.
abbrev pub nth : ℕ → List String → Option String
nth n [] = none
nth zero (x ∷ xs) = some x
nth (suc n) (x ∷ xs) = nth n xs

abbrev pub hand_to : Option String → String → List Request
hand_to none order = []
hand_to (some cid) order = signal (courier_id cid) (assignment order) ∷ []

unfoldable pub hand_out : Tick → List String → List Request
hand_out t [] = []
hand_out t (c ∷ couriers) =
    if ltb_ℤ t.chance (pos 500000)
    then hand_to (nth (t.pick % length (c ∷ couriers)) (c ∷ couriers)) t.order
    else []

-- The state after the oldest courier is told to go home.
abbrev pub dismissed : String → List String → Fleet → Fleet
dismissed old couriers f = record f {
  couriers = couriers;
  sent = f.sent ++ signal (courier_id old) end_shift ∷ [];
}

-- The oldest courier goes home, and another one starts.
unfoldable pub retire : Hire → List String → Fleet → Fleet
unfolding start_courier
retire h [] f = f
retire h (old ∷ couriers) f = start_courier h (dismissed old couriers f)

-- `tick % 4 == 0`
abbrev pub is_fourth : ℕ → Bool
is_fourth n = leb (n % 4) 0

-- The state after a turn's pings and assignment.
abbrev pub chatted : Tick → Fleet → Fleet
chatted t f = record f { sent = f.sent ++ ping_all t.fractions f.couriers ++ hand_out t f.couriers }

-- Turn number `n` of the second loop.
unfoldable pub tick : ℕ → Tick → Fleet → Fleet
unfolding ping_all hand_out retire
tick n t f = if is_fourth n then retire t.hire f.couriers (chatted t f) else chatted t f

unfoldable pub tick_from : ℕ → List Tick → Fleet → Fleet
unfolding tick
tick_from n [] f = f
tick_from n (t ∷ ticks) f = tick_from (suc n) ticks (tick (suc n) t f)

abbrev pub then_tick : Option Fleet → List Tick → Option Fleet
then_tick none ticks = none
then_tick (some f) ticks = some (tick_from 0 ticks f)

-- `courier_loop` up to some turn; none while the fleet is not brought up.
unfoldable pub courier_loop : ℤ → List Hire → List Tick → Fleet → Option Fleet
unfolding bring_up tick_from
courier_loop size hires ticks f = then_tick (bring_up size hires f) ticks
