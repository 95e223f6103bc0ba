-- ===== src/Workflows/Dispatch/Tests.antt =====
-- A dispatch region on concrete signals.
use warden_demo_workload.Workflows.Dispatch.Early.{Visit, started, chain, chain-started}
use warden_demo_workload.Prelude.{
  map, ◌≡◌, ◌≤◌, ◌+◌, ◌++◌, refl, true, false, List, [], ◌∷◌, arith, inl, length,
}
use warden_demo_workload.Common.Models.{DispatchState, fresh_region}
use warden_demo_workload.Prelude.Int.{pos}
use warden_demo_workload.Temporal.{upserts}
use warden_demo_workload.Workflows.Dispatch.{
  Dispatch, Entity, Activation, Signal, order_ready, courier_available, set_degradation, waiting,
  init, begin, activate, run_from, carry, stamped, answering,
}
use warden_demo_workload.Workflows.Dispatch.Quiescence.{run_from-IsAtRest, IsAtRest}
use warden_demo_workload.Workflows.Dispatch.Queue.{answers, queue, all_arrivals}
use warden_demo_workload.Workflows.Dispatch.Lifetime.{lifetime, lifetime-queue}
use warden_demo_workload.Workflows.Dispatch.Supply.{in_hand, all_reports}
use warden_demo_workload.Workflows.Dispatch.Supply.Chain.{Supplied, lifetime-Supplied}
use warden_demo_workload.Workflows.Dispatch.Health.{unpublished, all_flips, run_from-upserts}
use warden_demo_workload.Workflows.Dispatch.Carry.{
  IsOver, IsSuccessor, activate-IsOver, begin-IsSuccessor,
}

abbrev west : Dispatch
west = record init { region = "us-west" }

abbrev idle : Entity
idle = record { fields = west; point = waiting }

abbrev ready : Signal
ready = order_ready (record { order_id = "o1"; order_wf_id = "order-o1"; region = "us-west" })

abbrev free : Signal
free = courier_available (record { courier_id = "c1"; region = "us-west" })

abbrev suspended : Signal
suspended =
    set_degradation (record { suspend_can = true; inflate_history = false; inflate_rate = pos 40 })

-- An order with a courier, its two awaits, and a fault.
abbrev visits : List Activation
visits =
    record { history = 10; signals = ready ∷ free ∷ []; done = false }
    ∷ record { history = 20; signals = suspended ∷ []; done = true }
    ∷ record { history = 30; signals = []; done = true }
    ∷ []

-- The last order of a run that is over 200.
abbrev busy : Entity
busy = record {
  fields = record west { processed = 199; couriers = "c2" ∷ [] };
  point = answering (record { order_id = "o1"; order_wf_id = "order-o1" }) "c1";
}

abbrev answered : Activation
answered = record { history = 40; signals = free ∷ []; done = true }

-- The last order of a run, and an order for the next one.
lifetime-queue_example :
    let (e', commands) = lifetime (answered ∷ visits) busy in
    answers commands ++ queue e' ≡ queue busy ++ all_arrivals (answered ∷ visits)
lifetime-queue_example = lifetime-queue (answered ∷ visits) busy (λ c. c)

run_from-upserts_example :
    let (e', commands) = run_from visits idle in
    length (upserts commands) + unpublished e'.fields ≤ all_flips visits + unpublished idle.fields
run_from-upserts_example = run_from-upserts visits idle

abbrev last_fields : Dispatch
last_fields = record west { processed = 200; couriers = "c2" ∷ "c1" ∷ [] }

activate-IsOver_example :
    IsOver 40 (activate answered busy).0.fields (carry last_fields) (stamped last_fields)
unfolding activate
activate-IsOver_example =
    activate-IsOver answered busy (λ e. e) (carry last_fields) (stamped last_fields) refl

begin-IsSuccessor_example : IsSuccessor last_fields (begin (carry last_fields) init).0.fields
begin-IsSuccessor_example =
    begin-IsSuccessor 40 last_fields (carry last_fields) (stamped last_fields) (record {
      carried = refl;
      tagged = refl;
      drained = refl;
      allowed = refl;
      due = inl (omega arith);
    })

run_from-IsAtRest_example :
    IsAtRest (run_from visits (begin (fresh_region "us-west") init).0).0.fields
unfolding run_from begin
run_from-IsAtRest_example = run_from-IsAtRest visits (fresh_region "us-west") (omega arith) refl

-- The courier that has just reported is sent to the order of the next run.
lifetime-Supplied_example :
    Supplied "us-west"
      (in_hand busy.point)
      (busy.fields.couriers ++ all_reports (answered ∷ visits))
      (lifetime (answered ∷ visits) busy)
lifetime-Supplied_example = lifetime-Supplied "us-west" (answered ∷ visits) busy (λ c. c) refl

-- A run that has processed 199 orders: the next one is announced with a courier, and the run is
-- over. An order is announced to the run at the start before it begins, and a fault to the next one.
abbrev nearly_over : DispatchState
nearly_over = record (fresh_region "us-west") { processed = 199 }

abbrev early_visits : List Visit
early_visits =
    map (λ a. record { activation = a; early = suspended ∷ [] })
      (record { history = 10; signals = ready ∷ free ∷ []; done = false }
        ∷ record { history = 20; signals = []; done = true }
        ∷ record { history = 30; signals = []; done = true }
        ∷ [])

test_early_continues :
    (lifetime (map (λ v. v.activation) early_visits) (begin nearly_over init).0).0.fields.processed
    ≡ 0
unfolding lifetime begin
test_early_continues = refl

chain-started_example :
    (started (ready ∷ []) nearly_over ≡ begin nearly_over init)
    × (chain early_visits (started (ready ∷ []) nearly_over).0
        ≡ lifetime (map (λ v. v.activation) early_visits) (begin nearly_over init).0)
chain-started_example = chain-started (ready ∷ []) nearly_over early_visits
