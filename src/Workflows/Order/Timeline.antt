-- ===== src/Workflows/Order/Timeline.antt =====
-- What the environment of an order's run shows it (workflows/order.py), await by await: the couriers that
-- have been signalled, and the time. It is said of the turns alone; the lemmas
-- at the end tie the states of the run to it.
use Prim.Native.String.{◌++◌ as ◌⧺◌}
use warden_demo_workload.Prelude.{
  ℕ, zero, suc, ◌≡◌, refl, ap, ◌∙◌, String, Option, none, some, List, [], ◌∷◌, if◌then◌else◌,
  Bool-cases, Option-cases, inl, inr,
}
use warden_demo_workload.Common.Models.{OrderInput}
use warden_demo_workload.Common.SearchAttributes.{Pair}
use warden_demo_workload.Temporal.{Command, wait_until}
use warden_demo_workload.Workflows.Order.{
  Turn, Saga, receive, after, stage, await_courier, take_chars, fall_back, synthetic_courier,
}

-- The turns to come, the courier that was signalled last, if any, and the time.
pub record View : Type 0 where
  pub turns : ℕ → Turn
  pub courier : Option String
  pub now : ℕ

abbrev pub latest : List String → Option String → Option String
latest [] courier = courier
latest (c ∷ signals) courier = latest signals (some c)

-- After one await, and after some.
abbrev pub passed : View → View
passed v = record {
  turns = λ n. v.turns (suc n);
  courier = latest (v.turns 0).signals v.courier;
  now = (v.turns 0).now;
}

abbrev pub passes : ℕ → View → View
passes zero v = v
passes (suc n) v = passes n (passed v)

-- A wait for a courier takes an await if there is none yet; if there is none after it, the courier is a
-- synthetic one, by the first eight characters of the order's id.
abbrev pub supplied : String → Option String → Option String
supplied order_id (some c) = some c
supplied order_id none = some ("synthetic-" ⧺ take_chars 8 order_id)

abbrev pub waited : String → Option String → View → View
waited order_id (some c) v = v
waited order_id none v = let v' = passed v in record v' { courier = supplied order_id v'.courier }

-- When the restaurant has accepted, after five awaits and the sleep of an order that is to time out.
abbrev pub at_acceptance : OrderInput → (ℕ → Turn) → ℕ → View
at_acceptance inp turns now =
    passes (if inp.force_timeout then 6 else 5)
      (record { turns = turns; courier = none; now = now })

-- From then on: when it waits for its courier, at the pickup, and on arrival.
abbrev pub at_wait : View → View
at_wait v = passes 2 v

abbrev pub at_pickup : String → View → View
at_pickup order_id v = passed (waited order_id (at_wait v).courier (at_wait v))

abbrev pub at_arrival : String → View → View
at_arrival order_id v = passes 2 (at_pickup order_id v)

-- What a state of the run has of it.
abbrev pub view : Saga → View
view s = record { turns = s.turns; courier = s.courier_id; now = s.now }

receive-view :
    (signals : List String) (s : Saga)
    → view (receive signals s)
      ≡ record { turns = s.turns; courier = latest signals s.courier_id; now = s.now }
unfolding receive
receive-view [] s = refl
receive-view (c ∷ signals) s = receive-view signals (record s { courier_id = some c })

pub after-view : (c : Command) (s : Saga) → view (after c s) ≡ passed (view s)
unfolding after
after-view c s = receive-view (s.turns 0).signals _

pub stage-view :
    (name : String) (extra : List Pair) (s : Saga) → view (stage name extra s).1 ≡ view s
unfolding stage
stage-view name extra s = elim (Bool-cases s.track_stages) [
  | inl on ↦ rw on refl
  | inr off ↦ rw off refl
]

-- The fallback of the source, by its view.
supply : String → View → View
supply order_id v = record v { courier = supplied order_id v.courier }

fall_back-supplied :
    (order_id : String) (courier : Option String)
    → fall_back order_id courier ≡ supplied order_id courier
unfolding synthetic_courier
fall_back-supplied order_id none = refl
fall_back-supplied order_id (some c) = refl

supply-view :
    (order_id : String) (s : Saga)
    → view (record s { courier_id = fall_back order_id s.courier_id }) ≡ supply order_id (view s)
unfolding supply
supply-view order_id s = rw (fall_back-supplied order_id s.courier_id) refl

pub await_courier-view :
    (order_id : String) (s : Saga)
    → view (await_courier order_id s).1 ≡ waited order_id s.courier_id (view s)
unfolding await_courier supply
await_courier-view order_id s = elim (Option-cases s.courier_id) [
  | inr (c, here) ↦ rw here (rw here refl)
  | inl empty ↦ rw empty (
      supply-view order_id (after (wait_until 30) s)
      ∙ ap (supply order_id) (after-view (wait_until 30) s)
      ∙ ap (λ c. supply order_id (passed (record (view s) { courier = c }))) empty)
]
