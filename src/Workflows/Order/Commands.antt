-- ===== src/Workflows/Order/Commands.antt =====
-- The commands of an order's steps, whatever fails (workflows/order.py).
use warden_demo_workload.Prelude.{
  ℕ, ◌≡◌, refl, Bool, true, false, Option, List, [], ◌∷◌, ◌++◌, String, if◌then◌else◌, All,
  All-append, Bool-cases, Option-cases, inl, inr, append-nil, append_assoc,
}
use warden_demo_workload.Common.Models.{OrderInput}
use warden_demo_workload.Common.SearchAttributes.{Pair}
use warden_demo_workload.Common.Retry.{RetryPolicy}
use warden_demo_workload.Python.Value.{Conversions, str, bool}
use warden_demo_workload.Activities.Storm.{Sight}
use warden_demo_workload.Temporal.{
  Command, activity, timer, wait_until, upsert, Attempt, Outcome, ok, failed, Server,
}
use warden_demo_workload.Workflows.Order.{
  Saga, Step, after, sleep, execute_activity, signal_caught, start_child, stage, await_courier,
  settlement_child, ready_signal, gets, begin, pure, proceed, ◌>>=◌, accept, collect, deliver, run,
  Turn, init,
}
use warden_demo_workload.Workflows.Order.Awaits.{after-log}

-- The commands that a state has more than another all satisfy `P`.
abbrev pub AddsTo : (Command → Type 0) → Saga → Saga → Type 0
AddsTo P s s' = (extra : List Command) × (s'.log ≡ s.log ++ extra) × All P extra

-- A step that adds only commands which satisfy `P`.
pub record Adds (P : Command → Type 0) {A : Type 0} (m : Step A) : Type 0 where
  pub added : (s : Saga) → AddsTo P s (m s).1

-- What accepting and delivering an order need of `P`.
pub record Covers (P : Command → Type 0) (inp : OrderInput) : Type 0 where
  pub timers : (n : ℕ) → P (timer n)
  pub validate : (slow : Bool) → P (activity "validate_order" (str inp.order_id ∷ bool slow ∷ []))
  pub pay : P (activity "authorize_payment" (str inp.order_id ∷ []))
  pub send : (fail : Bool) → P (activity "send_to_restaurant" (str inp.order_id ∷ bool fail ∷ []))
  pub accepted : P (activity "poll_restaurant_accept" (str inp.order_id ∷ []))
  pub delivered : P (activity "mark_delivered" (str inp.order_id ∷ []))
  pub settle : (courier : Option String) → P (settlement_child inp courier)

module _ (P : Command → Type 0) where
  nothing : (s : Saga) → AddsTo P s s
  nothing s = ([], rw append-nil refl, tt)

  one : (c : Command) (s : Saga) → P c → AddsTo P s (after c s)
  one c s h = (c ∷ [], after-log c s, (h, tt))

  both : (s t u : Saga) → AddsTo P s t → AddsTo P t u → AddsTo P s u
  both s t u (a, e, h) (b, e', h') = (a ++ b, rw (e', e, append_assoc) refl, All-append P a b h h')

  Adds-pure : {A : Type 0} (a : A) → Adds P (pure a)
  Adds-pure a = record { added = nothing }

  Adds-gets : {A : Type 0} (f : Saga → A) → Adds P (gets f)
  Adds-gets f = record { added = nothing }

  Adds-begin : (inp : OrderInput) → Adds P (begin inp)
  unfolding begin
  Adds-begin inp = record { added = λ s. ([], rw append-nil refl, tt) }

  Adds-sleep : (n : ℕ) → P (timer n) → Adds P (sleep n)
  Adds-sleep n h = record { added = λ s. one (timer n) s h }

  Adds-execute :
      {A : Type 0} (server : Server) (c : Command) (policy : RetryPolicy) (timeout : ℕ)
      (body : (ℕ → Sight) → ℕ → Attempt A)
      → P c
      → Adds P (execute_activity server c policy timeout body)
  Adds-execute server c policy timeout body h = record { added = λ s. one c s h }

  Adds-signal : (c : Command) → P c → Adds P (signal_caught c)
  Adds-signal c h = record { added = λ s. one c s h }

  Adds-start_child : (c : Command) → P c → Adds P (start_child c)
  Adds-start_child c h = record { added = λ s. one c s h }

  Adds-stage :
      (name : String) (extra : List Pair)
      → ((pairs : List Pair) → P (upsert pairs))
      → Adds P (stage name extra)
  unfolding stage
  Adds-stage name extra h = record {
    added = λ s. elim (Bool-cases s.track_stages) [
      | inl on ↦ rw on (_, refl, (h _, tt))
      | inr off ↦ rw off (nothing s)
    ];
  }

  Adds-await_courier : (order_id : String) → P (wait_until 30) → Adds P (await_courier order_id)
  unfolding await_courier
  Adds-await_courier order_id h = record {
    added = λ s. elim (Option-cases s.courier_id) [
      | inl none_yet ↦ rw none_yet (one (wait_until 30) s h)
      | inr (c, early) ↦ rw early (nothing s)
    ];
  }

  Adds-if :
      {A : Type 0} (b : Bool) (m n : Step A) → Adds P m → Adds P n → Adds P (if b then m else n)
  Adds-if true m n hm hn = hm
  Adds-if false m n hm hn = hn

  proceed-AddsTo :
      {A B : Type 0} (o : Outcome A) (f : A → Step B) (s : Saga)
      → ((a : A) → Adds P (f a))
      → AddsTo P s (proceed o f s).1
  proceed-AddsTo (ok a) f s h = (h a).added s
  proceed-AddsTo failed f s h = nothing s

  pub Adds-bind :
      {A B : Type 0} (m : Step A) (f : A → Step B)
      → Adds P m
      → ((a : A) → Adds P (f a))
      → Adds P (m >>= f)
  Adds-bind m f hm hf = record {
    added = λ s.
        both s (m s).1 (proceed (m s).0 f (m s).1).1 (hm.added s)
          (proceed-AddsTo (m s).0 f (m s).1 hf);
  }

ruleset command_rules = (
  Adds-pure, Adds-gets, Adds-sleep, Adds-execute, Adds-signal, Adds-start_child, Adds-stage,
  Adds-await_courier, Adds-if, Adds-bind,
)

module _ (P : Command → Type 0) (server : Server) (cv : Conversions) (workflow_id : String)
    (inp : OrderInput) (covers : Covers P inp) where
  pub accept-Adds : Adds P (accept server cv workflow_id inp)
  unfolding accept
  accept-Adds =
      search
        (command_rules, covers.timers, covers.validate, covers.pay, covers.send, covers.accepted)
        depth 12

  pub deliver-Adds : Adds P (deliver server cv workflow_id inp)
  unfolding deliver
  deliver-Adds = search (command_rules, covers.timers, covers.delivered, covers.settle) depth 12

  collect-Adds :
      P (activity "mark_picked_up" (str inp.order_id ∷ []))
      → P (wait_until 30)
      → P (ready_signal inp workflow_id)
      → ((pairs : List Pair) → P (upsert pairs))
      → Adds P (collect server cv workflow_id inp)
  unfolding collect
  collect-Adds picked waits ready upserts = search (command_rules, covers.timers) depth 12

  -- A run from its start, if the steps in the middle satisfy `P` too.
  pub run-All :
      (turns : ℕ → Turn) (now : ℕ)
      → P (activity "mark_picked_up" (str inp.order_id ∷ []))
      → P (wait_until 30)
      → P (ready_signal inp workflow_id)
      → ((pairs : List Pair) → P (upsert pairs))
      → All P (run server cv workflow_id inp (init turns now)).1.log
  unfolding run
  run-All turns now picked waits ready upserts =
      let accepted : Step Unit = begin inp >>= λ u. accept server cv workflow_id inp in
      let collected : Step Unit = accepted >>= λ u. collect server cv workflow_id inp in
      let whole : Adds P (collected >>= λ u. deliver server cv workflow_id inp) =
        Adds-bind P collected (λ u. deliver server cv workflow_id inp)
          (Adds-bind P accepted (λ u. collect server cv workflow_id inp)
            (Adds-bind P (begin inp) (λ u. accept server cv workflow_id inp) (Adds-begin P inp)
              (λ u. accept-Adds))
            (λ u. collect-Adds picked waits ready upserts))
          (λ u. deliver-Adds) in
      let (extra, e, h) = whole.added (init turns now) in rw e h
