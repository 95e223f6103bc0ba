-- ===== src/Workflows/Order/Delivers.antt =====
-- A healthy order is delivered (workflows/order.py), whatever its dispatch region does.
use warden_demo_workload.Prelude.{
  sym, ap, subst, List, refl, ◌∙◌, ◌≢◌, ◌≡◌, String, false, [], none,
}
use warden_demo_workload.Python.Value.{Conversions}
use warden_demo_workload.Common.Models.{OrderInput}
use warden_demo_workload.Temporal.{Command, ok, Server, Outcome}
use warden_demo_workload.Workflows.Order.{init, Turn, run, settlement_child, Saga, after}
use warden_demo_workload.Prelude.{ℕ, Option, append_assoc, ◌++◌}
use warden_demo_workload.Workflows.Order.Timeline.{
  View, view, at_acceptance, at_wait, at_pickup, at_arrival,
}
use warden_demo_workload.Workflows.Order.Passage.{
  accept-view, ready-view, picked_up-view, arrived-view,
}
use warden_demo_workload.Workflows.Order.Awaits.{after-log, Accepts, Pays}
use warden_demo_workload.Workflows.Order.Course.{
  taken, accept_lem, ready, picked_up, in_transit, arrived, collect_lem, deliver_lem, accept_log,
  collect_log, deliver_log, paused-log, in_transit-log, in_transit-Accepts, taken-Accepts,
  taken-track_stages, picked_up-ne-none, arrived-ne-none,
}

-- A delivered order in an environment of turns: its commands, with the time promised on the
-- acceptance and the couriers that it had before the wait, at the pickup and on arrival.
abbrev pub Delivered : OrderInput → String → (ℕ → Turn) → ℕ → Outcome String × Saga → Type 0
Delivered inp workflow_id turns now r =
    let v = at_acceptance inp turns now in
    let carrier = (at_pickup inp.order_id v).courier in
    let last = (at_arrival inp.order_id v).courier in
    (r.0 ≡ ok "delivered")
    × (r.1.log
        ≡ accept_log inp
          ++ collect_log inp workflow_id v.now (at_wait v).courier carrier
          ++ deliver_log inp last)
    × (carrier ≢ none)
    × (last ≢ none)

abbrev settled : OrderInput → String → Saga → Saga
settled inp workflow_id s =
    let s' = arrived inp (in_transit inp workflow_id (taken inp s)) in
    after (settlement_child inp s'.courier_id) s'

-- The commands and the couriers, of a time and of couriers before the wait, at the pickup and on
-- arrival.
HasCourse :
    OrderInput → String → List Command → ℕ → Option String → Option String → Option String → Type 0
HasCourse inp workflow_id log now early carrier last =
    (log ≡ accept_log inp ++ collect_log inp workflow_id now early carrier ++ deliver_log inp last)
    × (carrier ≢ none)
    × (last ≢ none)

settled-HasCourse :
    (inp : OrderInput) (workflow_id : String) (s : Saga)
    → s.track_stages ≡ inp.track_stages
    → s.log ≡ []
    → let a : Saga = taken inp s in
      HasCourse inp workflow_id
        (settled inp workflow_id s).log
        a.now
        (ready inp workflow_id a).courier_id
        (picked_up inp workflow_id a).courier_id
        (arrived inp (in_transit inp workflow_id a)).courier_id
unfolding HasCourse
settled-HasCourse inp workflow_id s tracks fresh =
    let a : Saga = taken inp s in
    (
      simp (
        after-log,
        in_transit-log inp workflow_id a (taken-track_stages inp s ∙ tracks),
        paused-log,
        fresh,
        append_assoc,
      ),
      picked_up-ne-none inp workflow_id a,
      arrived-ne-none inp workflow_id a,
    )

-- The same of the view of a state that has accepted.
course-view :
    (inp : OrderInput) (workflow_id : String) (log : List Command) (a : Saga) (v : View)
    → view a ≡ v
    → HasCourse inp workflow_id log a.now
        (ready inp workflow_id a).courier_id
        (picked_up inp workflow_id a).courier_id
        (arrived inp (in_transit inp workflow_id a)).courier_id
    → HasCourse inp workflow_id log v.now
        (at_wait v).courier
        (at_pickup inp.order_id v).courier
        (at_arrival inp.order_id v).courier
course-view inp workflow_id log a v seen h =
    subst
      (λ v.
        HasCourse inp workflow_id log v.now (at_wait v).courier (at_pickup inp.order_id v).courier
          (at_arrival inp.order_id v).courier)
      seen
      (subst
        (λ w.
          HasCourse inp workflow_id log a.now (at_wait (view a)).courier
            (at_pickup inp.order_id (view a)).courier w.courier)
        (arrived-view inp workflow_id a)
        (subst
          (λ w.
            HasCourse inp workflow_id log a.now (at_wait (view a)).courier w.courier
              (arrived inp (in_transit inp workflow_id a)).courier_id)
          (picked_up-view inp workflow_id a)
          (subst
            (λ w.
              HasCourse inp workflow_id log a.now w.courier (picked_up inp workflow_id a).courier_id
                (arrived inp (in_transit inp workflow_id a)).courier_id)
            (ready-view inp workflow_id a) h)))

module _ (server : Server) (cv : Conversions) (workflow_id : String) (inp : OrderInput) where
  -- An order that is neither slow, nor rejected, nor forced to time out, that in every await would
  -- have a payment attempt among the first 1000 that passes the storm, and whose settlement child
  -- is accepted, returns "delivered", whatever signals arrive and whether or not its region
  -- answers. It has given exactly the commands of the saga, in order, with the time of the
  -- acceptance for the promise; and at the pickup and on arrival it has a courier, which is the one
  -- signalled last by then, or the synthetic one if none was.
  pub run-Delivered :
      (turns : ℕ → Turn) (now : ℕ)
      → inp.slow_validate ≡ false
      → inp.fail_at_restaurant ≡ false
      → inp.force_timeout ≡ false
      → Pays cv (init turns now)
      → Accepts (init turns now)
      → Delivered inp workflow_id turns now (run server cv workflow_id inp (init turns now))
  unfolding run HasCourse
  run-Delivered turns now prompt served unforced pays free =
      let s : Saga = record (init turns now) { track_stages = inp.track_stages } in
      let a : Saga = taken inp s in
      let accepted = accept_lem server cv workflow_id inp s prompt served pays in
      let seen : view a ≡ at_acceptance inp turns now =
        sym (ap (λ r. view r.1) accepted)
        ∙ accept-view server cv workflow_id inp turns now tt (ap (λ r. r.0) accepted) in
      let (log, carried, carries) =
        course-view inp workflow_id (settled inp workflow_id s).log a (at_acceptance inp turns now)
          seen (settled-HasCourse inp workflow_id s refl refl) in
      rw
        (
          accepted,
          collect_lem server cv workflow_id inp a,
          deliver_lem server cv workflow_id inp (in_transit inp workflow_id a)
              (in_transit-Accepts inp workflow_id a (taken-Accepts inp s free)),
        )
        (refl, log, carried, carries)
