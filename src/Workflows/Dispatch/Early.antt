-- ===== src/Workflows/Dispatch/Early.antt =====
-- Signals that a run of a dispatch region handles before `run` itself begins (workflows/dispatch.py): the
-- server may hand them to it with its start. Dispatch/Lifetime is the chain of runs without them.
use warden_demo_workload.Prelude.{◌≡◌, refl, ap, ◌∙◌, List, [], ◌∷◌, ◌++◌, map}
use warden_demo_workload.Common.Models.{DispatchState}
use warden_demo_workload.Workflows.Dispatch.{
  Dispatch, Point, Entity, Signal, waiting, marking, pausing, assigning, answering, continued, Ran,
  order_ready, courier_available, set_degradation, activate, Activation, begin, init, handle_all,
}
use warden_demo_workload.Workflows.Dispatch.Lifetime.{next_run, step, lifetime}

-- A run that is created, handles some signals, and begins.
unfoldable pub started : List Signal → DispatchState → Ran
unfolding begin handle_all
started early state = begin state (handle_all early init)

-- An activation, and the signals that the next run handles before it begins, if the activation
-- makes the run continue as new.
pub record Visit : Type 0 where
  pub activation : Activation
  pub early : List Signal

abbrev pub started_next : List Signal → Point → Entity → Ran
started_next early (continued state pairs) e = started early state
started_next early waiting e = (e, [])
started_next early (marking n) e = (e, [])
started_next early pausing e = (e, [])
started_next early (assigning o c) e = (e, [])
started_next early (answering o c) e = (e, [])

-- The whole chain.
unfoldable pub chain : List Visit → Entity → Ran
unfolding activate started
chain [] e = (e, [])
chain (v ∷ visits) e =
    let (e', commands) = activate v.activation e in
    let (e'', more) = started_next v.early e'.point e' in
    let (last, rest) = chain visits e'' in (last, (commands ++ more) ++ rest)

handle_all-seq : (signals : List Signal) (d : Dispatch) → (handle_all signals d).seq ≡ d.seq
unfolding handle_all
handle_all-seq [] d = refl
handle_all-seq (order_ready r ∷ signals) d = handle_all-seq signals _
handle_all-seq (courier_available a ∷ signals) d = handle_all-seq signals _
handle_all-seq (set_degradation g ∷ signals) d = handle_all-seq signals _

started-begin :
    (early : List Signal) (state : DispatchState) → started early state ≡ begin state init
unfolding started begin
started-begin early state = rw (handle_all-seq early init) refl

started_next-next_run :
    (early : List Signal) (p : Point) (e : Entity) → started_next early p e ≡ next_run p e
started_next-next_run early (continued state pairs) e = started-begin early state
started_next-next_run early waiting e = refl
started_next-next_run early (marking n) e = refl
started_next-next_run early pausing e = refl
started_next-next_run early (assigning o c) e = refl
started_next-next_run early (answering o c) e = refl

chain-lifetime :
    (visits : List Visit) (e : Entity)
    → chain visits e ≡ lifetime (map (λ v. v.activation) visits) e
unfolding chain lifetime step
chain-lifetime [] e = refl
chain-lifetime (v ∷ visits) e =
    rw (started_next-next_run v.early (activate v.activation e).0.point (activate v.activation e).0)
      (ap (λ (r : Ran). (r.0, (step v.activation e).1 ++ r.1))
        (chain-lifetime visits (step v.activation e).0))

-- A signal that a run handles before it begins has no effect: whichever signals the first run of a
-- chain and those after it handle before they begin, and whatever happens then, the region gives the
-- same commands and ends in the same state as if these signals had never arrived.
pub chain-started :
    (early : List Signal) (state : DispatchState) (visits : List Visit)
    → (started early state ≡ begin state init)
      × (chain visits (started early state).0
          ≡ lifetime (map (λ v. v.activation) visits) (begin state init).0)
chain-started early state visits = (
  started-begin early state,
  ap (λ (r : Ran). chain visits r.0) (started-begin early state)
      ∙ chain-lifetime visits (begin state init).0,
)
