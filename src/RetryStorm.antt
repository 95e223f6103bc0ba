-- ===== src/RetryStorm.antt =====
-- The fault `retry_storm` from the dashboard to the payments (dashboard/app.py, control/workflow.py,
-- control/cache.py, activities/order.py): what the dashboard posts, demo-control keeps, a worker's
-- refresher reads, and `authorize_payment` goes by. demo-control and the refresher take turns.
mod Tests
use warden_demo_workload.Prelude.{
  ℕ, String, ◌≡◌, ◌≢◌, refl, subst, ◌∙◌, ◌<◌, Bool, true, false, none, some, List, [], ◌∷◌, ◌++◌,
  ◌==◌, if◌then◌else◌, All, All-front, or_else, Bool-cases, ◌⊎◌, inl, inr, eq_iff, eq_refl, arith,
  Option,
}
use warden_demo_workload.Python.Dict.{get}
use warden_demo_workload.Python.Value.{Conversions}
use warden_demo_workload.Temporal.{Server, ok}
use warden_demo_workload.Common.Retry.{storm_retry}
use warden_demo_workload.Activities.{receipt}
use warden_demo_workload.Activities.Storm.{Sight, attempt_payment, payment_recovers}
use warden_demo_workload.Control.Schema.{Scenario, Scenarios, blank, default_scenarios, retry_storm}
use warden_demo_workload.Control.Schema.Merge.{IsRegistry, get-merge_scenario}
use warden_demo_workload.Control.Cache.{is_enabled, refresh, state, failed}
use warden_demo_workload.Control.Workflow
use warden_demo_workload.Control.Workflow.{
  Control, Signal, scenario_set, reset, action, handle, activate, get_state,
}
use warden_demo_workload.Control.Workflow.State.{handle-IsRegistry}
use warden_demo_workload.Control.Workflow.Lifetime.{
  View, view, meaning, meaning_all, successor, successor-turn,
}
use warden_demo_workload.Dashboard.Controls.{Written, Found, set_scenario}

-- demo-control, over its runs, and the map that one worker process keeps.
pub record System : Type 0 where
  pub control : Control
  pub cache : Scenarios

-- An activation of demo-control, or a round of the refresher, whose query is answered or raises.
pub data Turn : Type 0 where
  activated : ℕ → List Signal → Turn
  read missed : Turn

abbrev pub after_turn : Turn → System → System
unfolding successor refresh get_state
after_turn (activated history signals) m = record m {
  control = successor (activate history signals m.control);
}
after_turn read m = record m { cache = refresh m.cache (state (get_state m.control)) }
after_turn missed m = record m { cache = refresh m.cache failed }

unfoldable pub after : List Turn → System → System
unfolding after_turn
after [] m = m
after (t ∷ turns) m = after turns (after_turn t m)

-- A request of the dashboard, which finds the client ready and demo-control answering.
abbrev pub with_found : Found → System → System
with_found (some (some c)) m = record m { control = c }
with_found (some none) m = m
with_found none m = m

unfoldable pub posted : Written → System → System
unfolding set_scenario
posted w m = with_found (set_scenario w (some (some m.control))).1 m

-- A signal that does not switch a scenario on.
abbrev pub Leaves : String → Signal → Type 0
Leaves name (scenario_set n enabled params) = (n ≢ name) ⊎ (enabled ≡ false)
Leaves name reset = Unit
Leaves name (action n when) = Unit

abbrev pub LeavesTurn : String → Turn → Type 0
LeavesTurn name (activated history signals) = All (Leaves name) signals
LeavesTurn name read = Unit
LeavesTurn name missed = Unit

-- The scenario is off in the map that a client sees.
abbrev IsOff : String → View → Type 0
IsOff name v = (or_else (v name) blank).enabled ≡ false

defaults-IsOff : (name : String) → IsOff name (view default_scenarios)
unfolding default_scenarios get
defaults-IsOff name = ground arith

meaning-IsOff :
    (name : String) (s : Signal) (v : View)
    → Leaves name s
    → IsOff name v
    → IsOff name (meaning s v)
meaning-IsOff name (scenario_set n enabled params) v leaves off = elim (Bool-cases (n == name)) [
  | inr other ↦ rw other off
  | inl same ↦ elim leaves [
    | inl differs ↦ absurd (differs ((eq_iff n name).0 same))
    | inr off_now ↦ rw same off_now
  ]
]
meaning-IsOff name reset v leaves off = defaults-IsOff name
meaning-IsOff name (action n when) v leaves off = elim (Bool-cases ("_actions" == name)) [
  | inr other ↦ rw other off
  | inl same ↦ rw same (rw (← (eq_iff "_actions" name).0 same) at off)
]

meaning_all-IsOff :
    (name : String) (signals : List Signal) (v : View)
    → All (Leaves name) signals
    → IsOff name v
    → IsOff name (meaning_all signals v)
meaning_all-IsOff name [] v leaves off = off
meaning_all-IsOff name (s ∷ signals) v (one, leaves) off =
    meaning_all-IsOff name signals (meaning s v) leaves (meaning-IsOff name s v one off)

-- demo-control holds a registry in which the scenario is off.
record HoldsOff (name : String) (c : Control) : Type 0 where
  pub registry : IsRegistry c.scenarios
  pub off : IsOff name (view c.scenarios)

after_turn-HoldsOff :
    (name : String) (t : Turn) (m : System)
    → LeavesTurn name t
    → HoldsOff name m.control
    → HoldsOff name (after_turn t m).control
unfolding after_turn successor activate
after_turn-HoldsOff name (activated history signals) m leaves h =
    let (kept, seen) = successor-turn history signals m.control h.registry in
    record {
      registry = kept;
      off = rw seen (meaning_all-IsOff name signals (view m.control.scenarios) leaves h.off);
    }
after_turn-HoldsOff name read m leaves h = h
after_turn-HoldsOff name missed m leaves h = h

-- It is off for the worker too, and stays so.
after-IsOff :
    (name : String) (turns : List Turn) (m : System)
    → All (LeavesTurn name) turns
    → HoldsOff name m.control
    → IsOff name (view m.cache)
    → IsOff name (view (after turns m).cache)
unfolding after refresh get_state
after-IsOff name [] m leaves h off = off
after-IsOff name (activated history signals ∷ turns) m (one, leaves) h off =
    after-IsOff name turns (after_turn (activated history signals) m) leaves
      (after_turn-HoldsOff name (activated history signals) m one h) off
after-IsOff name (read ∷ turns) m (one, leaves) h off =
    after-IsOff name turns (after_turn read m) leaves h h.off
after-IsOff name (missed ∷ turns) m (one, leaves) h off = after-IsOff name turns m leaves h off

-- After a query that is answered.
after_read-IsOff :
    (name : String) (earlier later : List Turn) (m : System)
    → All (LeavesTurn name) (earlier ++ read ∷ later)
    → HoldsOff name m.control
    → IsOff name (view (after (earlier ++ read ∷ later) m).cache)
unfolding after refresh get_state
after_read-IsOff name [] later m (one, leaves) h =
    after-IsOff name later (after_turn read m) leaves h h.off
after_read-IsOff name (t ∷ earlier) later m (one, leaves) h =
    after_read-IsOff name earlier later (after_turn t m) leaves (after_turn-HoldsOff name t m one h)

posted-HoldsOff :
    (w : Written) (m : System)
    → IsRegistry m.control.scenarios
    → w.enabled ≡ false
    → HoldsOff w.name (posted w m).control
unfolding posted set_scenario handle Workflow.set_scenario
posted-HoldsOff w m registry off_posted = record {
  registry = handle-IsRegistry (scenario_set w.name w.enabled w.params) m.control registry;
  off =
      rw (get-merge_scenario m.control.scenarios w.name w.enabled w.params w.name, eq_refl w.name)
        off_posted;
}

-- When the dashboard switches the storm off, the payments that are being retried recover: whatever
-- demo-control and the worker's refresher do then and in whatever order, through any number of
-- runs, each of which begins before it handles its signals, and of failed queries, as long as no
-- later signal switches the storm on, an authorization of which one of the first 1000 attempts is
-- made after a query that was answered gives its receipt. The map that demo-control holds at first
-- is a registry.
pub switched_off-recovers :
    (server : Server) (cv : Conversions) (w : Written) (m : System) (earlier later : List Turn)
    (sights : ℕ → Sight) (order_id : String) (k : ℕ)
    → IsRegistry m.control.scenarios
    → (w.name ≡ retry_storm) × (w.enabled ≡ false)
    → All (LeavesTurn retry_storm) (earlier ++ read ∷ later)
    → (sights k).cache ≡ (after (earlier ++ read ∷ later) (posted w m)).cache
    → k < 1000
    → server.execute storm_retry 10 (attempt_payment cv sights order_id) ≡ ok (receipt order_id)
unfolding is_enabled
switched_off-recovers server cv w m earlier later sights order_id k registry (named, off) leaves
      cached early =
    let held : HoldsOff w.name (posted w m).control = posted-HoldsOff w m registry off in
    let seen : IsOff retry_storm (view (after (earlier ++ read ∷ later) (posted w m)).cache) =
      after_read-IsOff retry_storm earlier later (posted w m) leaves
        (subst (λ n. HoldsOff n (posted w m).control) named held) in
    payment_recovers server cv sights order_id k early (inl (rw cached seen))
