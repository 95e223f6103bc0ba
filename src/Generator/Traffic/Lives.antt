-- ===== src/Generator/Traffic/Lives.antt =====
-- How long the loops of the traffic go on (generator.py).
use warden_demo_workload.Prelude.{
  ℕ, ◌+◌, ◌≡◌, refl, ◌∙◌, String, Bool, true, false, Option, List, [], ◌∷◌, All, Bool-cases, inl,
  inr, arith, length, length-append,
}
use warden_demo_workload.Prelude.Int.{pos}
use warden_demo_workload.Python.Dict.{get}
use warden_demo_workload.Python.Value.{Micro, float, Conversions, Result, ok, raised, to_float}
use warden_demo_workload.Control.Schema.{Scenarios, workflow_failure, timeout_spike}
use warden_demo_workload.Control.Cache.{is_enabled, get_params}
use warden_demo_workload.Activities.{param_or}
use warden_demo_workload.Common.Models.{OrderInput}
use warden_demo_workload.Generator.Inputs.{Draws, hits, order_input}
use warden_demo_workload.Python.Value.{◌>>=◌}
use warden_demo_workload.Generator.Fleet.{StartOutcome}
use warden_demo_workload.Generator.Traffic.{
  unless_died, Loop, fresh, counts, OrderTurn, order_turn, order_made, order_loop, unless_died,
}

-- A call that returns.
abbrev pub IsOk : {A : Type 0} → Result A → Type 0
IsOk (ok a) = Unit
IsOk (raised e) = ⊥

pub IsOk-bind :
    {A B : Type 0} (m : Result A) (f : A → Result B)
    → IsOk m
    → ((a : A) → IsOk (f a))
    → IsOk (m >>= f)
IsOk-bind (ok a) f h k = k a
IsOk-bind (raised e) f h k = absurd h

-- A parameter that `float` takes.
abbrev pub IsFloat : Conversions → Scenarios → String → String → Micro → Type 0
IsFloat cv scenarios name param default =
    IsOk (to_float cv (param_or (get (get_params scenarios name) param) (float default)))

-- Both probabilities are numbers, or texts of numbers, or not there.
pub record IsReadable (cv : Conversions) (scenarios : Scenarios) : Type 0 where
  pub failure : IsFloat cv scenarios workflow_failure "failure_probability" (pos 400000)
  pub timeout : IsFloat cv scenarios timeout_spike "probability" (pos 500000)

hits-IsOk :
    (cv : Conversions) (scenarios : Scenarios) (name param : String) (default draw : Micro)
    → IsFloat cv scenarios name param default
    → IsOk (hits cv scenarios name param default draw)
unfolding hits
hits-IsOk cv scenarios name param default draw h = elim (Bool-cases (is_enabled scenarios name)) [
  | inl on ↦ rw on (IsOk-bind (to_float cv _) _ h (λ p. tt))
  | inr off ↦ rw off tt
]

pub order_input-IsOk :
    (cv : Conversions) (tracking : Bool) (scenarios : Scenarios) (d : Draws)
    → IsReadable cv scenarios
    → IsOk (order_input cv tracking scenarios d)
unfolding order_input
order_input-IsOk cv tracking scenarios d h =
    IsOk-bind (hits cv scenarios workflow_failure "failure_probability" (pos 400000) d.failure) _
      (hits-IsOk cv scenarios workflow_failure "failure_probability" (pos 400000) d.failure
        h.failure)
      (λ fails.
        IsOk-bind (hits cv scenarios timeout_spike "probability" (pos 500000) d.timeout) _
          (hits-IsOk cv scenarios timeout_spike "probability" (pos 500000) d.timeout h.timeout)
          (λ slow. tt))

abbrev pub successes : List OrderTurn → ℕ
successes [] = 0
successes (t ∷ turns) = counts t.outcome + successes turns

-- A loop that goes on, with what it has asked for.
pub record IsAlive (asked succeeded : ℕ) (l : Loop OrderInput) : Type 0 where
  pub alive : l.died ≡ false
  pub all_asked : length l.asked ≡ asked
  pub counted : l.succeeded ≡ succeeded

order_made-IsAlive :
    (outcome : StartOutcome) (r : Result (OrderInput × Option ℕ)) (l : Loop OrderInput) (n k : ℕ)
    → IsOk r
    → IsAlive n k l
    → IsAlive (n + 1) (k + counts outcome) (order_made outcome r l)
unfolding order_made
order_made-IsAlive outcome (raised e) l n k h a = absurd h
order_made-IsAlive outcome (ok (inp, timeout)) l n k h a = record {
  alive = a.alive;
  all_asked = length-append l.asked _ ∙ omega (arith, a.all_asked);
  counted = omega (arith, a.counted);
}

pub unless_died-alive :
    {A : Type 0} (b : Bool) (old new : Loop A) → b ≡ false → unless_died b old new ≡ new
unless_died-alive true old new h = cc h
unless_died-alive false old new h = refl

loop-IsAlive :
    (cv : Conversions) (tracking : Bool) (turns : List OrderTurn) (l : Loop OrderInput) (n k : ℕ)
    → All (λ t. IsReadable cv t.scenarios) turns
    → IsAlive n k l
    → IsAlive (n + length turns) (k + successes turns) (order_loop cv tracking turns l)
unfolding order_loop order_turn
loop-IsAlive cv tracking [] l n k h a = record {
  alive = a.alive;
  all_asked = omega (arith, a.all_asked);
  counted = omega (arith, a.counted);
}
loop-IsAlive cv tracking (t ∷ turns) l n k (h, hs) a =
    let made : IsOk (order_input cv tracking t.scenarios t.draws) =
      order_input-IsOk cv tracking t.scenarios t.draws h in
    let l' : Loop OrderInput =
      order_made t.outcome (order_input cv tracking t.scenarios t.draws) l in
    let rest : IsAlive (n + 1 + length turns) (k + counts t.outcome + successes turns)
        (order_loop cv tracking turns l') =
      loop-IsAlive cv tracking turns l' (n + 1) (k + counts t.outcome) hs
        (order_made-IsAlive t.outcome _ l n k made a) in
    rw (unless_died-alive l.died l l' a.alive) (record {
      alive = rest.alive;
      all_asked = rest.all_asked ∙ omega arith;
      counted = rest.counted ∙ omega arith;
    })

-- While both probabilities can be read as numbers, the loop goes on, however many of its starts the
-- server refuses: it asks for one start in each turn, and counts those that succeed.
pub order_loop-IsAlive :
    (cv : Conversions) (tracking : Bool) (turns : List OrderTurn)
    → All (λ t. IsReadable cv t.scenarios) turns
    → IsAlive (length turns) (successes turns) (order_loop cv tracking turns fresh)
order_loop-IsAlive cv tracking turns h =
    let rest =
      loop-IsAlive cv tracking turns fresh 0 0 h
        (record { alive = refl; all_asked = refl; counted = refl }) in
    record {
      alive = rest.alive;
      all_asked = rest.all_asked ∙ omega arith;
      counted = rest.counted ∙ omega arith;
    }
