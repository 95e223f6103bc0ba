-- ===== src/Deliveries.antt =====
-- Orders and their dispatch region together (workflows/order.py, workflows/dispatch.py): the
-- `order_ready` signals of the orders' runs are the arrivals of the region's entity, and its
-- `courier_assigned` signals are the answers.
pub mod Outings
mod Tests
use warden_demo_workload.Prelude.{
  ◌≤◌, map, length, ℕ, ◌≡◌, refl, ◌∙◌, ap, String, List, [], ◌∷◌, ◌++◌, ◌==◌, if◌then◌else◌,
  Bool-cases, inl, inr,
}
use warden_demo_workload.Common.Constants.{dispatch_id}
use warden_demo_workload.Common.Models.{OrderInput, fresh_region}
use warden_demo_workload.Python.Value.{Conversions}
use warden_demo_workload.Temporal.{Server}
use warden_demo_workload.Workflows.Order.{Turn, accept, run}
use warden_demo_workload.Workflows.Order
use warden_demo_workload.Workflows.Order.Asks.{asks, request, run-asks}
use warden_demo_workload.Workflows.Dispatch.{Dispatch, Entity, Activation, begin, top}
use warden_demo_workload.Workflows.Dispatch
use warden_demo_workload.Workflows.Dispatch.Queue.{answers, queue, all_arrivals}
use warden_demo_workload.Workflows.Dispatch.Carry.{IsContinued}
use warden_demo_workload.Workflows.Dispatch.Lifetime.{
  lifetime, lifetime-queue, lifetime-live, begin-Conserves,
}
use warden_demo_workload.Workflows.Dispatch.Progress.{idle, cost}
use warden_demo_workload.Workflows.Dispatch.Drains.{lifetime-answers}

-- One order, and what happens during its run.
pub record Placed : Type 0 where
  pub workflow_id : String
  pub input : OrderInput
  pub turns : ℕ → Turn
  pub now : ℕ

module _ (server : Server) (cv : Conversions) where
  -- The orders of which the runs tell the workflow `to`, in the order of the runs.
  abbrev pub mail : String → List Placed → List String
  mail to [] = []
  mail to (o ∷ orders) =
      asks to (run server cv o.workflow_id o.input (Order.init o.turns o.now)).1.log
      ++ mail to orders

  -- An order that the restaurant has accepted.
  abbrev pub if_accepted : Placed → List String
  if_accepted o =
      let s = record (Order.init o.turns o.now) { track_stages = o.input.track_stages } in
      request server cv o.workflow_id o.input (accept server cv o.workflow_id o.input s).0

  -- The orders of a region that are accepted.
  abbrev pub accepted_in : String → List Placed → List String
  accepted_in region [] = []
  accepted_in region (o ∷ orders) =
      (if dispatch_id region == dispatch_id o.input.region then if_accepted o else [])
      ++ accepted_in region orders

  mail-accepted_in :
      (region : String) (orders : List Placed)
      → mail (dispatch_id region) orders ≡ accepted_in region orders
  mail-accepted_in region [] = refl
  mail-accepted_in region (o ∷ orders) =
      rw
        (
          run-asks server cv o.workflow_id o.input o.turns o.now (dispatch_id region),
          mail-accepted_in region orders,
        )
        refl

  -- A region that starts empty and is told of its orders, each signal once and in order, answers
  -- the orders that the restaurants have accepted, each once and first come first served, and no
  -- other workflow: over any activations, however often the region continues as new, whatever else
  -- the signals are and whatever happens to the orders, those answered and those still queued are
  -- the accepted ones. Each run of the chain begins before it handles its signals.
  pub lifetime-accepted_in :
      (region : String) (orders : List Placed) (activations : List Activation)
      → all_arrivals activations ≡ mail (dispatch_id region) orders
      → let (e, commands) = lifetime activations (begin (fresh_region region) Dispatch.init).0 in
        answers commands ++ queue e ≡ accepted_in region orders
  unfolding begin
  lifetime-accepted_in region orders activations delivered =
      let e : Entity = (begin (fresh_region region) Dispatch.init).0 in
      let live : ¬ IsContinued e.point = (begin-Conserves (fresh_region region)).1 in
      lifetime-queue activations e live ∙ delivered ∙ mail-accepted_in region orders

  -- A region that starts empty and is told of its orders, each signal once and in order, sends a
  -- courier to each order that its restaurant has accepted, once and first come first served, and
  -- to no other workflow, once enough of its awaits are done after the last signal: one for an
  -- order in hand, those for its markers, and two for each order that is pending by then. Each run
  -- of the chain begins before it handles its signals.
  pub lifetime-answers_accepted :
      (region : String) (orders : List Placed) (activations : List Activation) (histories : List ℕ)
      → all_arrivals activations ≡ mail (dispatch_id region) orders
      → cost (lifetime activations (begin (fresh_region region) Dispatch.init).0).0
        ≤ length histories
      → let (e, commands) = lifetime activations (begin (fresh_region region) Dispatch.init).0 in
        let (e', more) = lifetime (map idle histories) e in
        (answers commands ++ answers more ≡ accepted_in region orders) × (queue e' ≡ [])
  lifetime-answers_accepted region orders activations histories delivered enough =
      let e0 : Entity = (begin (fresh_region region) Dispatch.init).0 in
      let e : Entity = (lifetime activations e0).0 in
      let live : ¬ IsContinued e.point =
        lifetime-live activations e0 (begin-Conserves (fresh_region region)).1 in
      let (answered, empty) = lifetime-answers histories e live enough in
      (rw answered (lifetime-accepted_in region orders activations delivered), empty)
