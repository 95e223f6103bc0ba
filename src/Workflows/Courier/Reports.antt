-- ===== src/Workflows/Courier/Reports.antt =====
-- What a courier's shift reports to its region (workflows/courier.py).
use warden_demo_workload.Prelude.{
  ℕ, zero, suc, ◌+◌, ◌≡◌, refl, ap, ◌∙◌, String, List, [], ◌∷◌, ◌++◌, Bool-cases, inl, inr, arith,
}
use warden_demo_workload.Common.Constants.{dispatch_id}
use warden_demo_workload.Temporal.{
  Command, activity, local_activity, timer, wait_until, signal, upsert, child, SignalCall,
  courier_available,
}
use warden_demo_workload.Workflows.Courier.{
  Courier, Point, Entity, waiting, accepting, reporting, finished, continued, Ran, at, activate,
  Activation, begin, carry, finish, drain_from, drain, body, wakes, resume, poll, poll_at,
  handle_all, Signal, assignment, location_ping, end_shift,
}
use warden_demo_workload.Workflows.Courier.Lifetime.{
  IsContinued, Carries, activate-Carries, next_run, next_run-known, step, lifetime,
}

-- A report: the workflow that is told, and the signal, of whatever name.
abbrev pub Report : Type 0
Report = String × SignalCall

-- All signals among the commands, in order.
abbrev pub reports : List Command → List Report
reports [] = []
reports (signal id call ∷ log) = (id, call) ∷ reports log
reports (upsert pairs ∷ log) = reports log
reports (activity a xs ∷ log) = reports log
reports (local_activity a xs ∷ log) = reports log
reports (timer n ∷ log) = reports log
reports (wait_until n ∷ log) = reports log
reports (child c ∷ log) = reports log

reports-append : (a b : List Command) → reports (a ++ b) ≡ reports a ++ reports b
reports-append [] b = refl
reports-append (signal id call ∷ a) b = ap (λ u. (id, call) ∷ u) (reports-append a b)
reports-append (upsert pairs ∷ a) b = reports-append a b
reports-append (activity n xs ∷ a) b = reports-append a b
reports-append (local_activity n xs ∷ a) b = reports-append a b
reports-append (timer n ∷ a) b = reports-append a b
reports-append (wait_until n ∷ a) b = reports-append a b
reports-append (child c ∷ a) b = reports-append a b

abbrev pub times : ℕ → Report → List Report
times zero r = []
times (suc n) r = r ∷ times n r

times-add : (n m : ℕ) (r : Report) → times (n + m) r ≡ times n r ++ times m r
times-add zero m r = let e : 0 + m ≡ m = omega arith in ap (λ k. times k r) e
times-add (suc n) m r =
    let e : suc n + m ≡ suc (n + m) = omega arith in
    ap (λ k. times k r) e ∙ ap (λ rs. r ∷ rs) (times-add n m r)

-- The report of a courier to its own region, that it is free.
abbrev pub report_of : Courier → Report
report_of c = (
  dispatch_id c.region,
  courier_available (record { courier_id = c.courier_id; region = c.region }),
)

-- What a piece of the shift does, from a courier's count and report: it makes that report once for each
-- assignment that it counts.
pub record Reports (count : ℕ) (report : Report) (r : Ran) : Type 0 where
  pub counted : ℕ
  pub added : r.0.fields.count ≡ count + counted
  pub made : reports r.1 ≡ times counted report
  pub same : report_of r.0.fields ≡ report

-- A piece that counts and reports nothing.
silent_Reports : (r : Ran) → reports r.1 ≡ [] → Reports r.0.fields.count (report_of r.0.fields) r
silent_Reports r h = record { counted = 0; added = omega arith; made = h; same = refl }

-- Two pieces, one after the other.
two-Report :
    (count : ℕ) (report : Report) (first second : Ran)
    → Reports count report first
    → Reports first.0.fields.count (report_of first.0.fields) second
    → Reports count report (second.0, first.1 ++ second.1)
two-Report count report first second h k = record {
  counted = h.counted + k.counted;
  added = omega (arith, h.added, k.added);
  made =
      reports-append first.1 second.1
      ∙ rw (h.made, k.made, h.same, times-add h.counted k.counted report) refl;
  same = k.same ∙ h.same;
}

-- The same, of what the piece starts with.
from_start :
    (count before : ℕ) (report earlier : Report) (r : Ran)
    → count ≡ before
    → report ≡ earlier
    → Reports count report r
    → Reports before earlier r
from_start count before report earlier r e e' h = record {
  counted = h.counted;
  added = omega (arith, h.added, e);
  made = h.made ∙ ap (times h.counted) e';
  same = h.same ∙ e';
}

drain_from-Reports :
    (assignments : List String) (history : ℕ) (c : Courier)
    → Reports c.count (report_of c) (drain_from assignments history c)
unfolding drain_from finish
drain_from-Reports [] history c = silent_Reports (finish history c) refl
drain_from-Reports (order_id ∷ rest) history c =
    silent_Reports (drain_from (order_id ∷ rest) history c) refl

body-Reports : (history : ℕ) (c : Courier) → Reports c.count (report_of c) (body history c)
unfolding body drain
body-Reports history c = elim (Bool-cases c.ended) [
  | inl over ↦ simp over (silent_Reports (at c (finished _), []) refl)
  | inr on ↦ simp on (drain_from-Reports c.assignments history c)
]

resume-Reports :
    (p : Point) (history : ℕ) (c : Courier) → Reports c.count (report_of c) (resume p history c)
unfolding resume drain
resume-Reports waiting history c = silent_Reports (at c waiting, []) refl
resume-Reports accepting history c = record { counted = 1; added = refl; made = refl; same = refl }
resume-Reports reporting history c = drain_from-Reports c.assignments history c
resume-Reports (finished r) history c = silent_Reports (at c (finished r), []) refl
resume-Reports (continued s ps) history c = silent_Reports (at c (continued s ps), []) refl

poll_at-Reports :
    (p : Point) (history : ℕ) (c : Courier) → Reports c.count (report_of c) (poll_at p history c)
poll_at-Reports waiting history c = elim (Bool-cases (wakes history c)) [
  | inl woken ↦ rw woken (body-Reports history c)
  | inr blocked ↦ rw blocked (silent_Reports (at c waiting, []) refl)
]
poll_at-Reports accepting history c = silent_Reports (at c accepting, []) refl
poll_at-Reports reporting history c = silent_Reports (at c reporting, []) refl
poll_at-Reports (finished r) history c = silent_Reports (at c (finished r), []) refl
poll_at-Reports (continued s ps) history c = silent_Reports (at c (continued s ps), []) refl

handle_all-same :
    (signals : List Signal) (c : Courier)
    → ((handle_all signals c).count ≡ c.count) × (report_of (handle_all signals c) ≡ report_of c)
unfolding handle_all
handle_all-same [] c = (refl, refl)
handle_all-same (assignment order_id ∷ signals) c = handle_all-same signals _
handle_all-same (location_ping lat lon ∷ signals) c = handle_all-same signals _
handle_all-same (end_shift ∷ signals) c = handle_all-same signals _

activate-Reports :
    (a : Activation) (e : Entity) → Reports e.fields.count (report_of e.fields) (activate a e)
unfolding activate poll
activate-Reports a e =
    let c : Courier = handle_all a.signals e.fields in
    let (count, same) = handle_all-same a.signals e.fields in
    let r : Ran = resume e.point a.history c in
    from_start c.count e.fields.count (report_of c) (report_of e.fields) _ count same
      (elim (Bool-cases a.done) [
        | inl done ↦ rw done (
            two-Report c.count (report_of c) r (poll_at r.0.point a.history r.0.fields)
              (resume-Reports e.point a.history c) (poll_at-Reports r.0.point a.history r.0.fields))
        | inr idle ↦ rw idle (poll_at-Reports e.point a.history c)
      ])

next_run-same :
    (p : Point) (e : Entity)
    → Carries e
    → e.point ≡ p
    → ((next_run p e).fields.count ≡ e.fields.count)
      × (report_of (next_run p e).fields ≡ report_of e.fields)
unfolding begin carry
next_run-same (continued state pairs) e h over =
    let (carried, empty) = h state pairs over in (rw carried refl, rw carried refl)
next_run-same waiting e h same = (refl, refl)
next_run-same accepting e h same = (refl, refl)
next_run-same reporting e h same = (refl, refl)
next_run-same (finished r) e h same = (refl, refl)

step-Reports :
    (a : Activation) (e : Entity)
    → ¬ IsContinued e.point
    → Reports e.fields.count (report_of e.fields) (step a e)
unfolding step
step-Reports a e live =
    let r : Ran = activate a e in
    let done : Reports e.fields.count (report_of e.fields) r = activate-Reports a e in
    let (count, same) = next_run-same r.0.point r.0 (activate-Carries a e live) refl in
    record {
      counted = done.counted;
      added = omega (arith, count, done.added);
      made = done.made;
      same = same ∙ done.same;
    }

pub step-live :
    (a : Activation) (e : Entity) → ¬ IsContinued e.point → ¬ IsContinued (step a e).0.point
unfolding step
step-live a e live =
    let r : Entity = (activate a e).0 in
    (next_run-known r.point r (activate-Carries a e live) refl).1

-- A shift signals its region that it is free once for each assignment that it counts, and gives no
-- other signal, of any name, to that workflow or to another: over any activations and any number of
-- runs, from a run that is not over, if each run of the chain begins before it handles its signals.
pub lifetime-Reports :
    (activations : List Activation) (e : Entity)
    → ¬ IsContinued e.point
    → Reports e.fields.count (report_of e.fields) (lifetime activations e)
unfolding lifetime
lifetime-Reports [] e live = silent_Reports (e, []) refl
lifetime-Reports (a ∷ activations) e live =
    two-Report e.fields.count (report_of e.fields) (step a e) (lifetime activations (step a e).0)
      (step-Reports a e live) (lifetime-Reports activations (step a e).0 (step-live a e live))
