-- ===== src/Workflows/Dispatch/Supply/Chain.antt =====
-- The couriers of a dispatch region over its whole life (workflows/dispatch.py).
use warden_demo_workload.Prelude.{
  ℕ, zero, suc, ◌-◌, ◌≡◌, refl, sym, subst, ap, String, List, [], ◌∷◌, ◌++◌, append-nil,
  append_assoc, length, drop,
}
use warden_demo_workload.Common.Models.{DispatchState}
use warden_demo_workload.Common.SearchAttributes.{Pair}
use warden_demo_workload.Workflows.Dispatch.{
  waiting, marking, pausing, assigning, answering, continued, Dispatch, Point, Entity, Ran,
  activate, Activation, begin, init, carry,
}
use warden_demo_workload.Workflows.Dispatch.Carry.{IsContinued, activate-IsOver}
use warden_demo_workload.Workflows.Dispatch.Lifetime.{next_run, step, lifetime, step-Conserves}
use warden_demo_workload.Workflows.Dispatch.Supply.{
  sent, kept-two, reports, all_reports, in_hand, Drawn, none_drawn, passed, Supplies, idle-Supplies,
  two-Supply,
}
use warden_demo_workload.Workflows.Dispatch.Supply.Pieces.{top-Supplies, activate-Supplies}

Drawn-drop :
    (region : String) (n : ℕ) (cs later names : List String)
    → Drawn region (drop n cs ++ later) names
    → Drawn region (cs ++ later) names
Drawn-drop region zero cs later names d = d
Drawn-drop region (suc n) [] later names d = d
Drawn-drop region (suc n) (c ∷ cs) later names d = passed (Drawn-drop region n cs later names d)

-- What the next run starts with is what the ended one carried: its last 50 couriers.
fresh-Supplies :
    (region : String) (state : DispatchState)
    → state.region ≡ region
    → Supplies region [] state.available_couriers (begin state init)
unfolding begin
fresh-Supplies region state same = search (top-Supplies, same)

begin-Supplies :
    (region : String) (d : Dispatch)
    → d.region ≡ region
    → Supplies region [] d.couriers (begin (carry d) init)
unfolding carry
begin-Supplies region d same =
    let begun = fresh-Supplies region (carry d) same in
    record {
      taken = begun.taken;
      kept = begun.kept;
      same = begun.same;
      draws = λ later names h.
          Drawn-drop region (length d.couriers - 50) d.couriers later _ (begun.draws later names h);
    }

next_run-Supplies :
    (region : String) (p : Point) (e : Entity)
    → ((state : DispatchState) (pairs : List Pair)
        → p ≡ continued state pairs
        → state ≡ carry e.fields)
    → e.point ≡ p
    → e.fields.region ≡ region
    → Supplies region (in_hand p) e.fields.couriers (next_run p e)
next_run-Supplies region (continued state pairs) e h at same =
    rw (h state pairs refl) (begin-Supplies region e.fields same)
next_run-Supplies region waiting e h at same = idle-Supplies region _ (e, []) same (ap in_hand at)
next_run-Supplies region (marking n) e h at same =
    idle-Supplies region _ (e, []) same (ap in_hand at)
next_run-Supplies region pausing e h at same = idle-Supplies region _ (e, []) same (ap in_hand at)
next_run-Supplies region (assigning o c) e h at same =
    idle-Supplies region _ (e, []) same (ap in_hand at)
next_run-Supplies region (answering o c) e h at same =
    idle-Supplies region _ (e, []) same (ap in_hand at)

step-Supplies :
    (region : String) (a : Activation) (e : Entity)
    → ¬ IsContinued e.point
    → e.fields.region ≡ region
    → Supplies region (in_hand e.point) (e.fields.couriers ++ reports a.signals) (step a e)
unfolding step
step-Supplies region a e live same =
    let r : Ran = activate a e in
    let done = activate-Supplies region a e same in
    two-Supply region (in_hand e.point) _ r (next_run r.0.point r.0) done (
      next_run-Supplies region r.0.point r.0
        (λ state pairs over. (activate-IsOver a e live state pairs over).carried) refl done.same)

-- What a region sends over a lifetime, from a courier in hand, the couriers at hand, and those that
-- report.
pub record Supplied (region : String) (hand pool : List String) (r : Ran) : Type 0 where
  pub taken : List String
  pub kept : sent r.1 ++ in_hand r.0.point ≡ hand ++ taken
  pub drawn : Drawn region pool taken

-- No courier is sent out twice for one report: over any activations and any number of runs, the couriers
-- that a region sends to orders, after one that was in hand and with one that is in hand in the end,
-- are, in order, some of those it had and of those that report, the earliest first and each report
-- used at most once; every other name is a synthetic one of the region. The run at the start is not
-- over, and each run of the chain begins before it handles its signals.
pub lifetime-Supplied :
    (region : String) (activations : List Activation) (e : Entity)
    → ¬ IsContinued e.point
    → e.fields.region ≡ region
    → Supplied region
        (in_hand e.point)
        (e.fields.couriers ++ all_reports activations)
        (lifetime activations e)
unfolding lifetime
lifetime-Supplied region [] e live same = record {
  taken = [];
  kept = sym (append-nil (in_hand e.point));
  drawn = none_drawn;
}
lifetime-Supplied region (a ∷ activations) e live same =
    let first = step-Supplies region a e live same in
    let e' : Entity = (step a e).0 in
    let rest = lifetime-Supplied region activations e' (step-Conserves a e live).1 first.same in
    let later : List String = all_reports activations in
    record {
      taken = first.taken ++ rest.taken;
      kept =
          kept-two (in_hand e.point) first.taken rest.taken (step a e) (lifetime activations e')
            first.kept rest.kept;
      drawn =
          subst (λ pool. Drawn region pool (first.taken ++ rest.taken))
            (append_assoc e.fields.couriers (reports a.signals) later)
            (first.draws later rest.taken rest.drawn);
    }
