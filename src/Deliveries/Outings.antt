-- ===== src/Deliveries/Outings.antt =====
-- Courier shifts and their dispatch region together (workflows/courier.py, workflows/dispatch.py): the
-- `courier_available` signals of the shifts are the reports that the region's entity receives.
mod Tests
use Prim.Native.String.{◌++◌ as ◌⧺◌}
use text.Mathlib.Text.{starts_with}
use text.Mathlib.TextPositions.{starts_with-append}
use warden_demo_workload.Common.Models.{CourierAvailable}
use warden_demo_workload.Temporal.{SignalCall}
use warden_demo_workload.Prelude.{
  ℕ, zero, suc, ◌+◌, ◌-◌, ◌≤◌, ◌≡◌, ◌≢◌, refl, sym, ap, ◌∙◌, subst, String, Bool, true, false, List,
  [], ◌∷◌, ◌++◌, ◌==◌, ◌&&◌, if◌then◌else◌, Bool-cases, inl, inr, arith, eq_iff, length,
}
use warden_demo_workload.Common.Constants.{dispatch_id, show}
use warden_demo_workload.Common.Models.{CourierState, CourierAvailable, fresh_region}
use warden_demo_workload.Workflows.Courier
use warden_demo_workload.Workflows.Courier.{Courier, begin}
use warden_demo_workload.Workflows.Courier.Lifetime as CourierLifetime
use warden_demo_workload.Workflows.Courier.Reports.{
  Report, reports, times, report_of, lifetime-Reports,
}
use warden_demo_workload.Workflows.Dispatch
use warden_demo_workload.Workflows.Dispatch.{Entity}
use warden_demo_workload.Workflows.Dispatch.Lifetime as DispatchLifetime
use warden_demo_workload.Workflows.Dispatch.Supply.{
  sent, all_reports, in_hand, Drawn, none_drawn, reported, synthetic, passed,
}
use warden_demo_workload.Workflows.Dispatch.Supply.Chain.{Supplied, lifetime-Supplied}

-- How often a name is in a list.
abbrev pub occurrences : String → List String → ℕ
occurrences c [] = 0
occurrences c (x ∷ xs) = (if x == c then 1 else 0) + occurrences c xs

occurrences-append :
    (c : String) (xs ys : List String)
    → occurrences c (xs ++ ys) ≡ occurrences c xs + occurrences c ys
occurrences-append c [] ys = omega arith
occurrences-append c (x ∷ xs) ys = omega (arith, occurrences-append c xs ys)

-- A name that no region makes up.
abbrev pub IsReal : String → Type 0
IsReal c = starts_with c "synthetic-" ≡ false

synthetic-ne : (region c : String) (n : ℕ) → IsReal c → ("synthetic-" ⧺ region ⧺ "-" ⧺ show n) ≢ c
synthetic-ne region c n real e =
    let made_up : starts_with c "synthetic-" ≡ true =
      subst (λ s. starts_with s "synthetic-" ≡ true) e
        (starts_with-append "synthetic-" (region ⧺ "-" ⧺ show n)) in
    cc (made_up, real)

-- A name that is drawn from reports is not drawn more often than it is reported.
Drawn-occurrences :
    (region c : String) {rs cs : List String}
    → IsReal c
    → Drawn region rs cs
    → occurrences c cs ≤ occurrences c rs
Drawn-occurrences region c real none_drawn = omega arith
Drawn-occurrences region c real (reported d) = omega (arith, Drawn-occurrences region c real d)
Drawn-occurrences region c real (synthetic n d) =
    elim (Bool-cases (("synthetic-" ⧺ region ⧺ "-" ⧺ show n) == c)) [
      | inl same ↦ absurd (synthetic-ne region c n real ((eq_iff _ c).0 same))
      | inr other ↦ rw other (omega (arith, Drawn-occurrences region c real d))
    ]
Drawn-occurrences region c real (passed d) = omega (arith, Drawn-occurrences region c real d)

-- A shift from the start of its first run, and what happens to it.
pub record Shift : Type 0 where
  pub state : CourierState
  pub days : List Courier.Activation

abbrev pub worked : Shift → Courier.Ran
worked s = CourierLifetime.lifetime s.days (begin s.state Courier.init)

-- The couriers of the `courier_available` signals to a workflow.
abbrev pub told : String → List Report → List String
told to [] = []
told to ((id, SignalCall.courier_available a) ∷ rs) =
    (if id == to then a.courier_id ∷ [] else []) ++ told to rs
told to ((id, SignalCall.courier_assigned c) ∷ rs) = told to rs
told to ((id, SignalCall.order_ready r) ∷ rs) = told to rs

abbrev pub told_by : String → List Shift → List String
told_by to [] = []
told_by to (s ∷ shifts) = told to (reports (worked s).1) ++ told_by to shifts

-- The assignments that the shifts of a courier in a region have counted.
abbrev counted_by : String → String → Shift → ℕ
counted_by region c s =
    if dispatch_id s.state.region == dispatch_id region && s.state.courier_id == c
    then (worked s).0.fields.count - s.state.assignments
    else 0

abbrev pub jobs : String → String → List Shift → ℕ
jobs region c [] = 0
jobs region c (s ∷ shifts) = counted_by region c s + jobs region c shifts

told-times :
    (to c id : String) (a : CourierAvailable) (n : ℕ)
    → occurrences c (told to (times n (id, SignalCall.courier_available a)))
      ≡ (if id == to && a.courier_id == c then n else 0)
told-times to c id a zero = ground arith
told-times to c id a (suc n) = ground (arith, told-times to c id a n)

worked-told :
    (region c : String) (s : Shift)
    → occurrences c (told (dispatch_id region) (reports (worked s).1)) ≡ counted_by region c s
unfolding begin
worked-told region c s =
    let told_all = lifetime-Reports s.days (begin s.state Courier.init) (λ h. h) in
    let n : told_all.counted ≡ (worked s).0.fields.count - s.state.assignments =
      omega (arith, told_all.added) in
    ap (λ rs. occurrences c (told (dispatch_id region) rs)) told_all.made
    ∙ told-times (dispatch_id region) c (dispatch_id s.state.region)
        (record { courier_id = s.state.courier_id; region = s.state.region }) told_all.counted
    ∙ ap
        (λ k.
          if dispatch_id s.state.region == dispatch_id region && s.state.courier_id == c
          then k
          else 0)
        n

told_by-jobs :
    (region c : String) (shifts : List Shift)
    → occurrences c (told_by (dispatch_id region) shifts) ≡ jobs region c shifts
told_by-jobs region c [] = refl
told_by-jobs region c (s ∷ shifts) =
    occurrences-append c (told (dispatch_id region) (reports (worked s).1)) _
    ∙ omega (arith, worked-told region c s, told_by-jobs region c shifts)

-- A region that starts empty sends a courier to no more orders than the assignments that the
-- courier's shifts in the region have counted, through any activations and any number of runs of
-- the region and of the shifts, each of which begins before it handles its signals: if the region
-- is told of the courier no more often than the shifts tell it, in whatever order, and the name is
-- not one that the region makes up.
pub lifetime-outings :
    (region c : String) (shifts : List Shift) (visits : List Dispatch.Activation)
    → IsReal c
    → occurrences c (all_reports visits) ≤ occurrences c (told_by (dispatch_id region) shifts)
    → let e = (Dispatch.begin (fresh_region region) Dispatch.init).0 in
      occurrences c (sent (DispatchLifetime.lifetime visits e).1) ≤ jobs region c shifts
unfolding Dispatch.begin
lifetime-outings region c shifts visits real delivered =
    let e : Entity = (Dispatch.begin (fresh_region region) Dispatch.init).0 in
    let r : Dispatch.Ran = DispatchLifetime.lifetime visits e in
    let supplied : Supplied region [] (all_reports visits) r =
      lifetime-Supplied region visits e (λ h. h) refl in
    omega (
      arith,
      occurrences-append c (sent r.1) (in_hand r.0.point),
      ap (occurrences c) supplied.kept,
      Drawn-occurrences region c real supplied.drawn,
      told_by-jobs region c shifts,
      delivered,
    )
