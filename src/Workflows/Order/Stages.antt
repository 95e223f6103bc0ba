-- ===== src/Workflows/Order/Stages.antt =====
-- The upserts of an order in every run, whatever fails (workflows/order.py).
use warden_demo_workload.Common.SearchAttributes.{promised_delivery_at}
use warden_demo_workload.Prelude.{
  ◌+◌, ◌++◌, ℕ, ◌≡◌, refl, ◌∙◌, Bool, true, false, [], ◌∷◌, append-nil, if◌then◌else◌, String,
  Option, List, ap,
}
use warden_demo_workload.Common.Retry.{RetryPolicy}
use warden_demo_workload.Python.Value.{Value}
use warden_demo_workload.Activities.Storm.{Sight}
use warden_demo_workload.Temporal.{
  Command, Outcome, ok, failed, Server, Attempt, upserts, timer, activity,
}
use warden_demo_workload.Temporal.Upserts.{upserts-append}
use warden_demo_workload.Workflows.Order.{
  gets, start_child, settlement_child, Saga, Step, after, sleep, execute_activity, pure, ◌>>=◌,
  proceed, OrderInput, Conversions, accept, deliver,
}
use warden_demo_workload.Common.SearchAttributes.{
  Pair, AttributeValue, set, order_stage, stage_preparing, stage_awaiting_courier, stage_in_transit,
}
use warden_demo_workload.Prelude.{ℕ, Bool-cases, ◌⊎◌, inl, inr, none, some, if◌then◌else◌}
use warden_demo_workload.Workflows.Order.{init, run, Turn, carried_by}
use warden_demo_workload.Workflows.Order.Course.{
  in_transit, picked_up, in_transit-log, collect_lem, collect_log,
}
use warden_demo_workload.Workflows.Order.Timeline.{View, view, at_acceptance, at_pickup}
use warden_demo_workload.Workflows.Order.Passage.{accept-view, picked_up-view}
use warden_demo_workload.Workflows.Order.Awaits.{after-log, after-track_stages}

-- A step that upserts nothing and leaves the switch for stages alone.
pub record IsQuiet {A : Type 0} (m : Step A) : Type 0 where
  pub same_upserts : (s : Saga) → upserts (m s).1.log ≡ upserts s.log
  pub same_switch : (s : Saga) → (m s).1.track_stages ≡ s.track_stages

after-upserts :
    (c : Command) (s : Saga) → upserts (c ∷ []) ≡ [] → upserts (after c s).log ≡ upserts s.log
after-upserts c s h = rw (after-log, upserts-append, h, append-nil)

IsQuiet-pure : {A : Type 0} (a : A) → IsQuiet (pure a)
IsQuiet-pure a = record { same_upserts = λ s. refl; same_switch = λ s. refl }

IsQuiet-sleep : (n : ℕ) → IsQuiet (sleep n)
IsQuiet-sleep n = record {
  same_upserts = λ s. after-upserts (timer n) s refl;
  same_switch = λ s. after-track_stages (timer n) s;
}

IsQuiet-execute :
    {A : Type 0} (server : Server) (c : Command) (policy : RetryPolicy) (timeout : ℕ)
    (body : (ℕ → Sight) → ℕ → Attempt A)
    → upserts (c ∷ []) ≡ []
    → IsQuiet (execute_activity server c policy timeout body)
IsQuiet-execute server c policy timeout body h = record {
  same_upserts = λ s. after-upserts c s h;
  same_switch = λ s. after-track_stages c s;
}

IsQuiet-if :
    {A : Type 0} (b : Bool) (m n : Step A) → IsQuiet m → IsQuiet n → IsQuiet (if b then m else n)
IsQuiet-if true m n hm hn = hm
IsQuiet-if false m n hm hn = hn

module _ {A B : Type 0} where
  upserts-proceed :
      (o : Outcome A) (f : A → Step B) (s : Saga)
      → ((a : A) → IsQuiet (f a))
      → (upserts (proceed o f s).1.log ≡ upserts s.log)
        × ((proceed o f s).1.track_stages ≡ s.track_stages)
  upserts-proceed (ok a) f s h = ((h a).same_upserts s, (h a).same_switch s)
  upserts-proceed failed f s h = (refl, refl)

  IsQuiet-bind :
      (m : Step A) (f : A → Step B) → IsQuiet m → ((a : A) → IsQuiet (f a)) → IsQuiet (m >>= f)
  IsQuiet-bind m f hm hf = record {
    same_upserts = λ s. (upserts-proceed (m s).0 f (m s).1 hf).0 ∙ hm.same_upserts s;
    same_switch = λ s. (upserts-proceed (m s).0 f (m s).1 hf).1 ∙ hm.same_switch s;
  }

IsQuiet-gets : {A : Type 0} (f : Saga → A) → IsQuiet (gets f)
IsQuiet-gets f = record { same_upserts = λ s. refl; same_switch = λ s. refl }

IsQuiet-start_child : (c : Command) → upserts (c ∷ []) ≡ [] → IsQuiet (start_child c)
IsQuiet-start_child c h = record {
  same_upserts = λ s. after-upserts c s h;
  same_switch = λ s. after-track_stages c s;
}

settlement_quiet :
    (inp : OrderInput) (courier : Option String) → upserts (settlement_child inp courier ∷ []) ≡ []
unfolding settlement_child
settlement_quiet inp courier = refl

activity_quiet :
    (name : String) (arguments : List Value) → upserts (activity name arguments ∷ []) ≡ []
activity_quiet name arguments = refl

ruleset quiet_rules = (
  IsQuiet-pure, IsQuiet-sleep, IsQuiet-execute, IsQuiet-if, IsQuiet-bind, IsQuiet-gets,
  IsQuiet-start_child, settlement_quiet, activity_quiet,
)

module _ (server : Server) (cv : Conversions) (workflow_id : String) (inp : OrderInput) where
  pub accept-IsQuiet : IsQuiet (accept server cv workflow_id inp)
  unfolding accept
  accept-IsQuiet = search quiet_rules depth 12

  deliver-IsQuiet : IsQuiet (deliver server cv workflow_id inp)
  unfolding deliver
  deliver-IsQuiet = search quiet_rules depth 12

-- The three upserts of an order that tracks its stages; the promise is for 35 minutes later.
abbrev pub stage_upserts : OrderInput → ℕ → Option String → List (List Pair)
stage_upserts inp now carrier =
    if inp.track_stages
    then (set order_stage (AttributeValue.text stage_preparing)
        ∷ set promised_delivery_at (AttributeValue.datetime (now + 2100))
        ∷ [])
      ∷ (set order_stage (AttributeValue.text stage_awaiting_courier) ∷ [])
      ∷ (set order_stage (AttributeValue.text stage_in_transit) ∷ carried_by carrier ∷ [])
      ∷ []
    else []

upserts-collect_log :
    (inp : OrderInput) (workflow_id : String) (now : ℕ) (early carrier : Option String)
    → upserts (collect_log inp workflow_id now early carrier) ≡ stage_upserts inp now carrier
upserts-collect_log inp workflow_id now none carrier = elim (Bool-cases inp.track_stages) [
  | inl on ↦ rw on
  | inr off ↦ rw off
]
upserts-collect_log inp workflow_id now (some c) carrier = elim (Bool-cases inp.track_stages) [
  | inl on ↦ rw on
  | inr off ↦ rw off
]

pub Outcome-cases : {A : Type 0} (o : Outcome A) → (o ≡ failed) ⊎ ((a : A) × (o ≡ ok a))
Outcome-cases failed = inl refl
Outcome-cases (ok a) = inr (a, refl)

-- What an order upserts in an environment of turns, by where its run ended.
abbrev pub Upserts : OrderInput → (ℕ → Turn) → ℕ → Outcome String × Saga → Type 0
Upserts inp turns now r =
    let v = at_acceptance inp turns now in
    ((r.0 ≡ failed) × (upserts r.1.log ≡ []))
    ⊎ (upserts r.1.log ≡ stage_upserts inp v.now (at_pickup inp.order_id v).courier)

module _ (server : Server) (cv : Conversions) (workflow_id : String) (inp : OrderInput) where
  collect_upserts :
      (s : Saga)
      → s.track_stages ≡ inp.track_stages
      → upserts (in_transit inp workflow_id s).log
        ≡ upserts s.log ++ stage_upserts inp s.now (picked_up inp workflow_id s).courier_id
  collect_upserts s h = rw (in_transit-log inp workflow_id s h, upserts-append, upserts-collect_log)

  -- The stages with the values that the state has, by its view.
  stamped :
      (s : Saga) (v : View)
      → view s ≡ v
      → stage_upserts inp s.now (picked_up inp workflow_id s).courier_id
        ≡ stage_upserts inp v.now (at_pickup inp.order_id v).courier
  stamped s v seen =
      ap (λ w. stage_upserts inp s.now w.courier) (picked_up-view inp workflow_id s)
      ∙ ap (λ w. stage_upserts inp w.now (at_pickup inp.order_id w).courier) seen

  -- In every run, whatever its environment does: either the order fails and has upserted nothing, or
  -- its upserts are its three stages in order, or none if it does not track them. The first has the
  -- time promised, 35 minutes after the restaurant's acceptance, and the last has the courier that
  -- was signalled last by the pickup, or the synthetic one if none was.
  pub run-Upserts :
      (turns : ℕ → Turn) (now : ℕ)
      → Upserts inp turns now (run server cv workflow_id inp (init turns now))
  unfolding run
  run-Upserts turns now =
      let s : Saga = record (init turns now) { track_stages = inp.track_stages } in
      let a : Saga = (accept server cv workflow_id inp s).1 in
      let quiet : upserts a.log ≡ [] = (accept-IsQuiet server cv workflow_id inp).same_upserts s in
      elim (Outcome-cases (accept server cv workflow_id inp s).0) [
        | inl stopped ↦ inl (rw stopped, rw stopped quiet)
        | inr (u, e) ↦
            let seen : view a ≡ at_acceptance inp turns now =
              accept-view server cv workflow_id inp turns now u e in
            inr (
              rw (e, collect_lem server cv workflow_id inp a)
                ((deliver-IsQuiet server cv workflow_id inp).same_upserts
                    (in_transit inp workflow_id a)
                  ∙ collect_upserts a ((accept-IsQuiet server cv workflow_id inp).same_switch s)
                  ∙ rw quiet (stamped a (at_acceptance inp turns now) seen)))
      ]
