-- ===== src/Workflows/Order/Passage.antt =====
-- How the states of an order's run (workflows/order.py) follow the turns of its environment: each await
-- of `OrderWorkflow.run` takes one turn.
use warden_demo_workload.Prelude.{
  [], ◌∷◌, ℕ, suc, ◌≡◌, refl, ap, ◌∙◌, String, Bool, true, false, if◌then◌else◌, [],
}
use warden_demo_workload.Common.Models.{OrderInput}
use warden_demo_workload.Common.Retry.{RetryPolicy}
use warden_demo_workload.Python.Value.{Conversions}
use warden_demo_workload.Activities.Storm.{Sight}
use warden_demo_workload.Temporal.{Command, Outcome, ok, failed, Server, Attempt, timer}
use warden_demo_workload.Workflows.Order.{
  Turn, Saga, Step, init, accept, sleep, execute_activity, pure, ◌>>=◌, proceed, ready_signal,
  promised,
}
use warden_demo_workload.Common.SearchAttributes.{
  stage_preparing, stage_awaiting_courier, stage_in_transit,
}
use warden_demo_workload.Workflows.Order.Course.{ready, picked_up, in_transit, arrived, simple}
use warden_demo_workload.Workflows.Order.Timeline.{
  view, passed, passes, waited, at_acceptance, at_wait, at_pickup, at_arrival, after-view,
  stage-view, await_courier-view,
}

-- A step that takes `k` turns whenever it succeeds, and one that takes a single turn in any case.
pub record Takes {A : Type 0} (k : ℕ) (m : Step A) : Type 0 where
  pub taken_turns : (s : Saga) (a : A) → (m s).0 ≡ ok a → view (m s).1 ≡ passes k (view s)

pub record TakesOne {A : Type 0} (m : Step A) : Type 0 where
  pub taken_turn : (s : Saga) → view (m s).1 ≡ passed (view s)

Takes-pure : {A : Type 0} (a : A) → Takes 0 (pure a)
Takes-pure a = record { taken_turns = λ s b e. refl }

TakesOne-sleep : (n : ℕ) → TakesOne (sleep n)
TakesOne-sleep n = record { taken_turn = λ s. after-view (timer n) s }

TakesOne-execute :
    {A : Type 0} (server : Server) (c : Command) (policy : RetryPolicy) (timeout : ℕ)
    (body : (ℕ → Sight) → ℕ → Attempt A)
    → TakesOne (execute_activity server c policy timeout body)
TakesOne-execute server c policy timeout body = record { taken_turn = λ s. after-view c s }

module _ {A B : Type 0} where
  Takes-proceed :
      (o : Outcome A) (f : A → Step B) (k : ℕ) (s : Saga) (b : B)
      → ((a : A) → Takes k (f a))
      → (proceed o f s).0 ≡ ok b
      → view (proceed o f s).1 ≡ passes k (view s)
  Takes-proceed (ok a) f k s b h e = (h a).taken_turns s b e
  Takes-proceed failed f k s b h e = cc e

  Takes-next :
      (m : Step A) (f : A → Step B) (k : ℕ)
      → TakesOne m
      → ((a : A) → Takes k (f a))
      → Takes (suc k) (m >>= f)
  Takes-next m f k one rest = record {
    taken_turns =
        λ s b e. Takes-proceed (m s).0 f k (m s).1 b rest e ∙ ap (passes k) (one.taken_turn s);
  }

Takes-pause :
    {B : Type 0} (forced : Bool) (f : Unit → Step B) (k : ℕ)
    → ((a : Unit) → Takes k (f a))
    → Takes (if forced then suc k else k) ((if forced then sleep 30 else pure tt) >>= f)
Takes-pause true f k rest = Takes-next (sleep 30) f k (TakesOne-sleep 30) rest
Takes-pause false f k rest = record { taken_turns = λ s b e. (rest tt).taken_turns s b e }

ruleset turn_rules = (Takes-next, Takes-pause, Takes-pure, TakesOne-sleep, TakesOne-execute)

module _ (server : Server) (cv : Conversions) (workflow_id : String) (inp : OrderInput) where
  accept-Takes : Takes (if inp.force_timeout then 6 else 5) (accept server cv workflow_id inp)
  unfolding accept
  accept-Takes = search turn_rules depth 16

  -- Once the restaurant has accepted, the run has seen the first five turns, or six.
  pub accept-view :
      (turns : ℕ → Turn) (now : ℕ) (a : Unit)
      → let s : Saga = record (init turns now) { track_stages = inp.track_stages } in
        (accept server cv workflow_id inp s).0 ≡ ok a
        → view (accept server cv workflow_id inp s).1 ≡ at_acceptance inp turns now
  accept-view turns now a e =
      accept-Takes.taken_turns (record (init turns now) { track_stages = inp.track_stages }) a e

module _ (inp : OrderInput) (workflow_id : String) (s : Saga) where
  pub ready-view : view (ready inp workflow_id s) ≡ at_wait (view s)
  ready-view =
      stage-view stage_awaiting_courier [] _
      ∙ after-view (ready_signal inp workflow_id) _
      ∙ ap passed
          (after-view (timer 70) _ ∙ ap passed (stage-view stage_preparing (promised s.now ∷ []) s))

  pub picked_up-view : view (picked_up inp workflow_id s) ≡ at_pickup inp.order_id (view s)
  picked_up-view =
      after-view (simple inp "mark_picked_up") _
      ∙ ap passed (
          await_courier-view inp.order_id (ready inp workflow_id s)
          ∙ ap (λ v. waited inp.order_id v.courier v) ready-view)

  pub arrived-view :
      view (arrived inp (in_transit inp workflow_id s)) ≡ at_arrival inp.order_id (view s)
  arrived-view =
      after-view (simple inp "mark_delivered") _
      ∙ ap passed (
          after-view (timer 60) _
          ∙ ap passed
              (stage-view stage_in_transit _ (picked_up inp workflow_id s) ∙ picked_up-view))
