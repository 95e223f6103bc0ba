-- ===== src/Workflows/Courier/Tests.antt =====
-- A courier's shift on concrete signals.
use warden_demo_workload.Prelude.{◌++◌, ◌≡◌, ◌-◌, ℕ, map, refl, true, false, List, [], ◌∷◌, arith}
use warden_demo_workload.Workflows.Courier.{
  accepting, Entity, Courier, Activation, assignment, end_shift, reporting, init, at,
}
use warden_demo_workload.Workflows.Courier.Accounts.{known}
use warden_demo_workload.Workflows.Courier.Lifetime.{lifetime}
use warden_demo_workload.Workflows.Courier.Reports.{
  Reports, reports, times, report_of, lifetime-Reports,
}
use warden_demo_workload.Workflows.Courier.Drains.{idle, lifetime-counts}
use warden_demo_workload.Workflows.Courier.Fate.{Fate, worked_off, end_shift-Fate}

abbrev courier : Courier
courier = record init { courier_id = "7"; region = "us-west" }

abbrev visits : List Activation
visits =
    record { history = 10; signals = assignment "o1" ∷ assignment "o2" ∷ []; done = false }
    ∷ record { history = 20; signals = assignment "o3" ∷ []; done = true }
    ∷ record { history = 30; signals = end_shift ∷ []; done = true }
    ∷ []

-- The end of a run's last report on a long history, and the assignments of the next run.
abbrev two_runs : List Activation
two_runs = record { history = 1501; signals = []; done = true } ∷ visits

lifetime-Reports_example : Reports 0 (report_of courier) (lifetime two_runs (at courier reporting))
lifetime-Reports_example = lifetime-Reports two_runs (at courier reporting) (λ c. c)

-- One assignment in hand and two in the list; the history is long from the fourth await on.
abbrev laden : Entity
laden = at (record courier { assignments = "o2" ∷ "o3" ∷ []; count = 4 }) accepting

abbrev histories : List ℕ
histories = 10 ∷ 20 ∷ 30 ∷ 1600 ∷ 1610 ∷ 1620 ∷ []

lifetime-counts_example :
    let (e, commands) = lifetime (map idle histories) laden in
    (e.fields.count ≡ 7) × (reports commands ≡ times (known laden - 4) (report_of laden.fields))
lifetime-counts_example =
    lifetime-counts histories laden (record { going = tt; unended = refl }) (omega arith)

-- Told to end with one assignment in hand and two in the list; the history is long at the last report.
abbrev told_to_end : Entity
told_to_end =
    at (record courier { assignments = "o2" ∷ "o3" ∷ []; count = 4; ended = true }) accepting

abbrev before : List ℕ
before = 10 ∷ 20 ∷ 30 ∷ 40 ∷ 50 ∷ []

end_shift-Fate_example :
    let (e, commands) = lifetime (map idle (before ++ 1501 ∷ [])) told_to_end in
    Fate (worked_off told_to_end.fields (known told_to_end)) 1501 e
    × (reports commands ≡ times (known told_to_end - 4) (report_of told_to_end.fields))
end_shift-Fate_example = end_shift-Fate before 1501 told_to_end tt refl refl
