-- ===== src/Workflows/Order/Asks.antt =====
-- What an order asks of its dispatch region (workflows/order.py).
use warden_demo_workload.Prelude.{
  arith, ℕ, ◌≡◌, refl, ◌∙◌, String, Option, none, some, List, [], ◌∷◌, ◌++◌, ◌==◌, if◌then◌else◌,
  All, Bool-cases, inl, inr, append-nil, append_assoc,
}
use warden_demo_workload.Common.Constants.{dispatch_id}
use warden_demo_workload.Common.Models.{OrderInput}
use warden_demo_workload.Python.Value.{Conversions}
use warden_demo_workload.Temporal.{
  Command, activity, local_activity, timer, wait_until, signal, upsert, child, SignalCall,
  order_ready, courier_assigned, courier_available, Server, Outcome, ok, failed,
}
use warden_demo_workload.Workflows.Order.{Saga, Turn, init, settlement_child, accept, deliver, run}
use warden_demo_workload.Workflows.Order.Commands.{Covers, AddsTo, accept-Adds, deliver-Adds}
use warden_demo_workload.Workflows.Order.Course.{
  collect_lem, collect_log, in_transit, in_transit-log,
}
use warden_demo_workload.Workflows.Order.Stages.{Outcome-cases, accept-IsQuiet}

-- The orders that a signal tells the workflow `to` are ready, by their workflows.
abbrev told : String → String → SignalCall → List String
told to id (order_ready r) = if to == id then r.order_wf_id ∷ [] else []
told to id (courier_assigned c) = []
told to id (courier_available a) = []

abbrev pub asked : String → Command → List String
asked to (signal id call) = told to id call
asked to (activity a xs) = []
asked to (local_activity a xs) = []
asked to (timer n) = []
asked to (wait_until n) = []
asked to (upsert pairs) = []
asked to (child c) = []

-- The orders among the commands of which the workflow `to` is told.
abbrev pub asks : String → List Command → List String
asks to [] = []
asks to (c ∷ log) = asked to c ++ asks to log

asks-append : (to : String) (a b : List Command) → asks to (a ++ b) ≡ asks to a ++ asks to b
asks-append to [] b = refl
asks-append to (c ∷ a) b = rw (asks-append to a b, append_assoc) refl

asks-silent : (to : String) (log : List Command) → All (λ c. asked to c ≡ []) log → asks to log ≡ []
asks-silent to [] h = refl
asks-silent to (c ∷ log) (h, k) = rw (h, asks-silent to log k) refl

silent-Covers : (to : String) (inp : OrderInput) → Covers (λ c. asked to c ≡ []) inp
unfolding settlement_child
silent-Covers to inp = record {
  timers = λ n. refl;
  validate = λ slow. refl;
  pay = refl;
  send = λ fail. refl;
  accepted = refl;
  delivered = refl;
  settle = λ courier. refl;
}

-- A step that asks nothing.
asks-AddsTo :
    (to : String) (s s' : Saga)
    → AddsTo (λ c. asked to c ≡ []) s s'
    → asks to s'.log ≡ asks to s.log
asks-AddsTo to s s' (extra, e, h) = rw (e, asks-append, asks-silent to extra h, append-nil) refl

asks-collect_log :
    (to : String) (inp : OrderInput) (workflow_id : String) (now : ℕ)
    (early carrier : Option String)
    → asks to (collect_log inp workflow_id now early carrier)
      ≡ (if to == dispatch_id inp.region then workflow_id ∷ [] else [])
asks-collect_log to inp workflow_id now none carrier = elim (Bool-cases inp.track_stages) [
  | inl on ↦ rw (on, append-nil) refl
  | inr off ↦ rw (off, append-nil) refl
]
asks-collect_log to inp workflow_id now (some c) carrier = elim (Bool-cases inp.track_stages) [
  | inl on ↦ rw (on, append-nil) refl
  | inr off ↦ rw (off, append-nil) refl
]

-- What an order's run asks of the region's entity: nothing if it is not accepted, and otherwise a
-- courier for itself, once.
module _ (server : Server) (cv : Conversions) (workflow_id : String) (inp : OrderInput) where
  abbrev pub request : Outcome Unit → List String
  request (ok u) = workflow_id ∷ []
  request failed = []

  pub run-asks :
      (turns : ℕ → Turn) (now : ℕ) (to : String)
      → let s = record (init turns now) { track_stages = inp.track_stages } in
        asks to (run server cv workflow_id inp (init turns now)).1.log ≡ (
          if to == dispatch_id inp.region
          then request (accept server cv workflow_id inp s).0
          else [])
  unfolding run
  run-asks turns now to =
      let s : Saga = record (init turns now) { track_stages = inp.track_stages } in
      let a : Saga = (accept server cv workflow_id inp s).1 in
      let c : Saga = in_transit inp workflow_id a in
      let quiet : asks to a.log ≡ [] = asks-AddsTo to s a (
        (accept-Adds (λ c. asked to c ≡ []) server cv workflow_id inp (silent-Covers to inp)).added
          s) in
      elim (Outcome-cases (accept server cv workflow_id inp s).0) [
        | inl stopped ↦ rw (stopped, quiet) (ground arith)
        | inr (u, e) ↦
            let asked_once : asks to c.log
                ≡ (if to == dispatch_id inp.region then workflow_id ∷ [] else []) =
              rw
                (
                  in_transit-log inp workflow_id a
                      ((accept-IsQuiet server cv workflow_id inp).same_switch s),
                  asks-append to a.log,
                  quiet,
                  asks-collect_log,
                )
                refl in
            rw (e, collect_lem server cv workflow_id inp a)
              (asks-AddsTo to c (deliver server cv workflow_id inp c).1 (
                  (deliver-Adds (λ c. asked to c ≡ []) server cv workflow_id inp
                      (silent-Covers to inp)).added
                    c)
                ∙ asked_once)
      ]
