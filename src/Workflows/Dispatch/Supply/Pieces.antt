-- ===== src/Workflows/Dispatch/Supply/Pieces.antt =====
-- What each piece of a region's run does with its couriers (workflows/dispatch.py).
use Prim.Native.String.{◌++◌ as ◌⧺◌}
use warden_demo_workload.Prelude.{
  ℕ, zero, suc, ◌≡◌, refl, sym, subst, ◌∙◌, String, List, [], ◌∷◌, ◌++◌, append-nil, append_assoc,
  Bool-cases, inl, inr, ◌==◌,
}
use warden_demo_workload.Common.Constants.{show}
use warden_demo_workload.Common.Models.{PendingOrder}
use warden_demo_workload.Temporal.{upsert}
use warden_demo_workload.Workflows.Dispatch.{
  status, waiting, marking, pausing, assigning, answering, continued, Dispatch, Point, Entity, Ran,
  body, wakes, poll, poll_at, activate, Activation, handle_all, Signal, resume, top, drain,
  drain_from, finish, take_courier, mark, must_continue, synthetic_courier,
}
use warden_demo_workload.Workflows.Dispatch.Supply.{
  reports, in_hand, Drawn, reported, synthetic, Supplies, idle-Supplies, two-Supply,
}

module _ (region : String) where
  pub top-Supplies : (d : Dispatch) → d.region ≡ region → Supplies region [] d.couriers (top d)
  unfolding top mark
  top-Supplies d same = elim (Bool-cases d.degr.inflate_history) [
    | inl on ↦ rw on (idle-Supplies region [] _ same refl)
    | inr off ↦ rw off (idle-Supplies region [] _ same refl)
  ]

  finish-Supplies :
      (history : ℕ) (d : Dispatch)
      → d.region ≡ region
      → Supplies region [] d.couriers (finish history d)
  unfolding finish
  finish-Supplies history d same = elim (Bool-cases (must_continue history d)) [
    | inl over ↦ rw over (idle-Supplies region [] _ same refl)
    | inr on ↦ rw on (top-Supplies d same)
  ]

  take_courier-Supplies :
      (order : PendingOrder) (couriers : List String) (d : Dispatch)
      → d.couriers ≡ couriers
      → d.region ≡ region
      → Supplies region [] couriers (take_courier order couriers d)
  unfolding synthetic_courier
  take_courier-Supplies order [] d empty same = record {
    taken = synthetic_courier d ∷ [];
    kept = refl;
    same = same;
    draws = λ later names h.
        subst (λ r. Drawn region later (("synthetic-" ⧺ r ⧺ "-" ⧺ show d.processed) ∷ names))
          (sym same)
          (synthetic d.processed (subst (λ cs. Drawn region (cs ++ later) names) empty h));
  }
  take_courier-Supplies order (c ∷ couriers) d some_left same = record {
    taken = c ∷ [];
    kept = refl;
    same = same;
    draws = λ later names h. reported h;
  }

  drain_from-Supplies :
      (pending : List PendingOrder) (history : ℕ) (d : Dispatch)
      → d.region ≡ region
      → Supplies region [] d.couriers (drain_from pending history d)
  unfolding drain_from
  drain_from-Supplies [] history d same = finish-Supplies history d same
  drain_from-Supplies (o ∷ pending) history d same =
      take_courier-Supplies o d.couriers (record d { pending = pending }) refl same

  body-Supplies :
      (history : ℕ) (d : Dispatch)
      → d.region ≡ region
      → Supplies region [] d.couriers (body history d)
  unfolding body drain
  body-Supplies history d same = elim (Bool-cases (status d.degr == d.published_status)) [
    | inl known ↦ rw known (drain_from-Supplies d.pending history d same)
    | inr flipped ↦
        let d' : Dispatch = record d { published_status = status d.degr } in
        let r : Ran = drain_from d.pending history d' in
        rw flipped (
          two-Supply region [] d.couriers (record { fields = d'; point = waiting }, upsert _ ∷ []) r
            (idle-Supplies region [] _ same refl) (drain_from-Supplies d.pending history d' same))
  ]

  resume-Supplies :
      (p : Point) (history : ℕ) (d : Dispatch)
      → d.region ≡ region
      → Supplies region (in_hand p) d.couriers (resume p history d)
  unfolding resume mark drain
  resume-Supplies waiting history d same = idle-Supplies region [] _ same refl
  resume-Supplies (marking zero) history d same = idle-Supplies region [] _ same refl
  resume-Supplies (marking (suc n)) history d same = idle-Supplies region [] _ same refl
  resume-Supplies pausing history d same = body-Supplies history d same
  resume-Supplies (assigning o c) history d same = idle-Supplies region (c ∷ []) _ same refl
  resume-Supplies (answering o c) history d same = drain_from-Supplies d.pending history _ same
  resume-Supplies (continued s ps) history d same = idle-Supplies region [] _ same refl

  poll_at-Supplies :
      (p : Point) (history : ℕ) (d : Dispatch)
      → d.region ≡ region
      → Supplies region (in_hand p) d.couriers (poll_at p history d)
  poll_at-Supplies waiting history d same = elim (Bool-cases (wakes history d)) [
    | inl woken ↦ rw woken (body-Supplies history d same)
    | inr blocked ↦ rw blocked (idle-Supplies region [] _ same refl)
  ]
  poll_at-Supplies (marking n) history d same = idle-Supplies region [] _ same refl
  poll_at-Supplies pausing history d same = idle-Supplies region [] _ same refl
  poll_at-Supplies (assigning o c) history d same = idle-Supplies region (c ∷ []) _ same refl
  poll_at-Supplies (answering o c) history d same = idle-Supplies region [] _ same refl
  poll_at-Supplies (continued s ps) history d same = idle-Supplies region [] _ same refl

  handle_all-couriers :
      (signals : List Signal) (d : Dispatch)
      → ((handle_all signals d).couriers ≡ d.couriers ++ reports signals)
        × ((handle_all signals d).region ≡ d.region)
  unfolding handle_all
  handle_all-couriers [] d = (sym (append-nil d.couriers), refl)
  handle_all-couriers (Signal.courier_available a ∷ signals) d =
      let (all, same) = handle_all-couriers signals _ in
      (all ∙ append_assoc d.couriers (a.courier_id ∷ []) (reports signals), same)
  handle_all-couriers (Signal.order_ready r ∷ signals) d = handle_all-couriers signals _
  handle_all-couriers (Signal.set_degradation g ∷ signals) d = handle_all-couriers signals _

  pub activate-Supplies :
      (a : Activation) (e : Entity)
      → e.fields.region ≡ region
      → Supplies region (in_hand e.point) (e.fields.couriers ++ reports a.signals) (activate a e)
  unfolding activate poll
  activate-Supplies a e same =
      let d : Dispatch = handle_all a.signals e.fields in
      let (all, kept) = handle_all-couriers a.signals e.fields in
      let here : d.region ≡ region = kept ∙ same in
      let r : Ran = resume e.point a.history d in
      let resumed = resume-Supplies e.point a.history d here in
      rw (← all) (elim (Bool-cases a.done) [
        | inl done ↦ rw done (
            two-Supply region (in_hand e.point) d.couriers r
              (poll_at r.0.point a.history r.0.fields) resumed
              (poll_at-Supplies r.0.point a.history r.0.fields resumed.same))
        | inr idle ↦ rw idle (poll_at-Supplies e.point a.history d here)
      ])
