-- ===== src/Activities.antt =====
-- activities/: the bodies of the activities. A body gives one attempt: how it ends, and how long it
-- takes where it sleeps. The control cache and the random draw that an attempt sees are arguments.
pub mod Storm
mod Tests
use Prim.Native.Char.{code}
use Prim.Native.String.{◌++◌ as ◌⧺◌}
use warden_demo_workload.Prelude.{
  ℕ, ◌+◌, ◌*◌, ◌%◌, String, Bool, true, Option, none, some, if◌then◌else◌,
}
use warden_demo_workload.Prelude.Int.{ℤ, pos, ltb_ℤ}
use warden_demo_workload.Python.Dict.{get}
use warden_demo_workload.Python.Value.{Value, float, Micro, Conversions, Result, to_float}
use warden_demo_workload.Python.Value
use warden_demo_workload.Control.Schema.{Scenarios, retry_storm}
use warden_demo_workload.Control.Cache.{is_enabled, get_params}
use warden_demo_workload.Temporal.{Attempt, Ending, completed, retryable, non_retryable}

abbrev at_once : {A : Type 0} → Ending A → Attempt A
at_once e = record { ending = e; seconds = 0 }

unfoldable pub validate_order : String → Bool → Attempt String
validate_order order_id slow = record {
  ending = completed "valid";
  seconds = if slow then 30 else 0;
}

-- `params.get(key, default)`
abbrev pub param_or : Option Value → Value → Value
param_or none d = d
param_or (some v) d = v

-- The probability that `authorize_payment` reads, by `float(...)`.
unfoldable pub storm_probability : Conversions → Scenarios → Result Micro
storm_probability cv cache =
    to_float cv
      (param_or (get (get_params cache retry_storm) "failure_probability") (float (pos 600000)))

-- `random.random() < prob`; a probability that is no number raises, and is retried like any error.
abbrev pub payment_ending : Result Micro → Micro → String → Ending String
payment_ending (Value.ok prob) draw paid = if ltb_ℤ draw prob then retryable else completed paid
payment_ending (Value.raised e) draw paid = retryable

abbrev pub receipt : String → String
receipt order_id = "auth-" ⧺ order_id

unfoldable pub authorize_payment : Conversions → Scenarios → Micro → String → Attempt String
unfolding storm_probability
authorize_payment cv cache draw order_id = at_once (
    if is_enabled cache retry_storm
    then payment_ending (storm_probability cv cache) draw (receipt order_id)
    else completed (receipt order_id))

unfoldable pub send_to_restaurant : String → Bool → Attempt String
send_to_restaurant order_id should_fail =
    at_once (if should_fail then non_retryable else completed "sent")

unfoldable pub poll_restaurant_accept : String → Attempt Bool
poll_restaurant_accept order_id = at_once (completed true)

unfoldable pub mark_picked_up : String → Attempt String
mark_picked_up order_id = at_once (completed "picked_up")

unfoldable pub mark_delivered : String → Attempt String
mark_delivered order_id = at_once (completed "delivered")

unfoldable pub capture_payment : String → Attempt String
capture_payment order_id = at_once (completed ("captured-" ⧺ order_id))

unfoldable pub compute_payout : String → Attempt Micro
compute_payout order_id = at_once (completed (pos 4750000))

unfoldable pub accept_assignment : String → String → Attempt String
accept_assignment courier_id order_id = at_once (completed (courier_id ⧺ " accepted " ⧺ order_id))

unfoldable pub assign_courier : String → String → Attempt String
assign_courier order_id courier_id = at_once (completed (courier_id ⧺ "->" ⧺ order_id))

unfoldable pub noop_marker : ℕ → Attempt ℕ
noop_marker seq = at_once (completed seq)

unfoldable pub fetch_menu : String → Attempt ℕ
fetch_menu restaurant_id = at_once (completed 42)

unfoldable pub refresh_menu : String → Attempt String
refresh_menu restaurant_id = at_once (completed ("refreshed-" ⧺ restaurant_id))

unfoldable pub publish_menu : String → Attempt String
publish_menu restaurant_id = at_once (completed ("published-" ⧺ restaurant_id))

-- `sum(ord(c) for c in s)`
unfoldable pub sum_codes : String → ℕ
sum_codes String.[] = 0
sum_codes (String.◌∷◌ c s) = code c + sum_codes s

-- The score in millionths: `float(total % 100) / 100.0`.
unfoldable pub score_candidate : String → Attempt Micro
unfolding sum_codes
score_candidate candidate_id = at_once (completed (pos (sum_codes candidate_id % 100 * 10000)))

unfoldable pub tiny_eval : ℕ → Attempt ℕ
tiny_eval seq = at_once (completed seq)
