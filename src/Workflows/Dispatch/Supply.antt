-- ===== src/Workflows/Dispatch/Supply.antt =====
-- Where the couriers of the answers come from (workflows/dispatch.py).
pub mod Pieces
pub mod Chain
use Prim.Native.String.{◌++◌ as ◌⧺◌}
use warden_demo_workload.Prelude.{
  ℕ, zero, suc, ◌-◌, ◌≡◌, refl, sym, subst, ap, ◌∙◌, String, List, [], ◌∷◌, ◌++◌, append-nil,
  append_assoc, length, drop, Bool-cases, inl, inr, ◌==◌, map,
}
use warden_demo_workload.Common.Constants.{show}
use warden_demo_workload.Common.Models.{PendingOrder, DispatchState}
use warden_demo_workload.Common.SearchAttributes.{Pair}
use warden_demo_workload.Temporal.{
  Command, activity, local_activity, timer, wait_until, signal, upsert, child, courier_assigned,
  SignalCall, order_ready, courier_available,
}
use warden_demo_workload.Workflows.Dispatch.{
  status, waiting, marking, pausing, assigning, answering, continued, Dispatch, Point, Entity, Ran,
  body, wakes, poll, poll_at, activate, Activation, handle_all, Signal, resume, top, run_from,
  drain, drain_from, finish, take_courier, mark, must_continue, begin, init, carry,
  synthetic_courier,
}
use warden_demo_workload.Workflows.Dispatch.Carry.{IsContinued, activate-IsOver}
use warden_demo_workload.Workflows.Dispatch.Lifetime.{next_run, step, lifetime}

-- The couriers that are sent to orders.
abbrev pub sent_by : SignalCall → List String
sent_by (courier_assigned c) = c ∷ []
sent_by (order_ready r) = []
sent_by (courier_available a) = []

abbrev pub sent : List Command → List String
sent [] = []
sent (signal id call ∷ log) = sent_by call ++ sent log
sent (upsert pairs ∷ log) = sent log
sent (activity a xs ∷ log) = sent log
sent (local_activity a xs ∷ log) = sent log
sent (timer n ∷ log) = sent log
sent (wait_until n ∷ log) = sent log
sent (child c ∷ log) = sent log

-- The couriers that report to the region.
abbrev pub reports : List Signal → List String
reports [] = []
reports (Signal.courier_available a ∷ signals) = a.courier_id ∷ reports signals
reports (Signal.order_ready r ∷ signals) = reports signals
reports (Signal.set_degradation g ∷ signals) = reports signals

abbrev pub all_reports : List Activation → List String
all_reports [] = []
all_reports (a ∷ activations) = reports a.signals ++ all_reports activations

-- The courier that is taken and not yet sent.
abbrev pub in_hand : Point → List String
in_hand (assigning o c) = c ∷ []
in_hand waiting = []
in_hand (marking n) = []
in_hand pausing = []
in_hand (answering o c) = []
in_hand (continued s ps) = []

-- Names drawn from reports: each is the next report, or the region's synthetic name for a number, and
-- reports may be passed over.
pub data Drawn (region : String) : List String → List String → Type 0 where
  none_drawn : {rs : List String} → Drawn region rs []
  reported :
      {c : String} {rs cs : List String} → Drawn region rs cs → Drawn region (c ∷ rs) (c ∷ cs)
  synthetic :
      {rs cs : List String} (n : ℕ)
      → Drawn region rs cs
      → Drawn region rs (("synthetic-" ⧺ region ⧺ "-" ⧺ show n) ∷ cs)
  passed : {c : String} {rs cs : List String} → Drawn region rs cs → Drawn region (c ∷ rs) cs

sent-append : (a b : List Command) → sent (a ++ b) ≡ sent a ++ sent b
sent-append [] b = refl
sent-append (signal id (courier_assigned c) ∷ a) b = ap (λ u. c ∷ u) (sent-append a b)
sent-append (signal id (order_ready r) ∷ a) b = sent-append a b
sent-append (signal id (courier_available r) ∷ a) b = sent-append a b
sent-append (upsert pairs ∷ a) b = sent-append a b
sent-append (activity n xs ∷ a) b = sent-append a b
sent-append (local_activity n xs ∷ a) b = sent-append a b
sent-append (timer n ∷ a) b = sent-append a b
sent-append (wait_until n ∷ a) b = sent-append a b
sent-append (child c ∷ a) b = sent-append a b

-- What a piece of the run does, from a courier in hand and some couriers at hand: it takes some names,
-- which are sent or in hand in the end, and draws them from the couriers.
pub record Supplies (region : String) (hand pool : List String) (r : Ran) : Type 0 where
  pub taken : List String
  pub kept : sent r.1 ++ in_hand r.0.point ≡ hand ++ taken
  pub same : r.0.fields.region ≡ region
  pub draws :
      (later names : List String)
      → Drawn region (r.0.fields.couriers ++ later) names
      → Drawn region (pool ++ later) (taken ++ names)

-- A piece that sends and takes nothing.
pub idle-Supplies :
    (region : String) (hand : List String) (r : Ran)
    → r.0.fields.region ≡ region
    → sent r.1 ++ in_hand r.0.point ≡ hand
    → Supplies region hand r.0.fields.couriers r
idle-Supplies region hand r same kept = record {
  taken = [];
  kept = kept ∙ sym (append-nil hand);
  same = same;
  draws = λ later names d. d;
}

-- The names taken by two pieces are those that are sent or in hand in the end.
pub kept-two :
    (hand taken more : List String) (first second : Ran)
    → sent first.1 ++ in_hand first.0.point ≡ hand ++ taken
    → sent second.1 ++ in_hand second.0.point ≡ in_hand first.0.point ++ more
    → sent (first.1 ++ second.1) ++ in_hand second.0.point ≡ hand ++ (taken ++ more)
kept-two hand taken more first second h k =
    rw (sent-append first.1 second.1, append_assoc)
      (ap (λ u. sent first.1 ++ u) k
        ∙ sym (append_assoc (sent first.1) (in_hand first.0.point) more)
        ∙ ap (λ u. u ++ more) h
        ∙ append_assoc hand taken more)

-- Two pieces, one after the other.
pub two-Supply :
    (region : String) (hand pool : List String) (first second : Ran)
    → Supplies region hand pool first
    → Supplies region (in_hand first.0.point) first.0.fields.couriers second
    → Supplies region hand pool (second.0, first.1 ++ second.1)
two-Supply region hand pool first second h k = record {
  taken = h.taken ++ k.taken;
  kept = kept-two hand h.taken k.taken first second h.kept k.kept;
  same = k.same;
  draws = λ later names d.
      subst (Drawn region (pool ++ later)) (sym (append_assoc h.taken k.taken names))
        (h.draws later (k.taken ++ names) (k.draws later names d));
}
