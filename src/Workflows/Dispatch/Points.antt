-- ===== src/Workflows/Dispatch/Points.antt =====
-- What each piece of the dispatch loop leaves behind (workflows/dispatch.py).
use warden_demo_workload.Prelude.{
  ◌≢◌, ◌⊎◌, ◌≤◌, ℕ, ◌≡◌, arith, false, [], eq_iff, List, true, ◌∷◌, String,
}
use warden_demo_workload.Workflows.Dispatch.{
  take_courier, drain_from, body, wakes, max_history, Dispatch, waiting, status, publish_status,
  top, finish, must_continue, drain, PendingOrder,
}

-- Between two points: nothing pending, the health published, no markers to make, and no reason to
-- continue as new.
pub record IsSettled (history : ℕ) (d : Dispatch) : Type 0 where
  pub drained : d.pending ≡ []
  pub published : d.published_status ≡ status d.degr
  pub quiet : d.degr.inflate_history ≡ false
  pub stays : must_continue history d ≡ false

pub publish_status_fields :
    (d : Dispatch)
    → let d' = (publish_status d).0 in
      (d'.published_status ≡ status d'.degr) × (d'.degr ≡ d.degr) × (d'.pending ≡ d.pending)
unfolding publish_status
publish_status_fields d = ground (arith, eq_iff (status d.degr) d.published_status)

top-waiting :
    (d : Dispatch)
    → (top d).0.point ≡ waiting
    → (d.degr.inflate_history ≡ false) × ((top d).0.fields ≡ d)
unfolding top
top-waiting d h = ground arith

pub finish-waiting :
    (history : ℕ) (d : Dispatch)
    → (finish history d).0.point ≡ waiting
    → (must_continue history d ≡ false)
      × (d.degr.inflate_history ≡ false)
      × ((finish history d).0.fields ≡ d)
unfolding finish
finish-waiting history d h = ground (arith, top-waiting d)

pub drain-waiting :
    (pending : List PendingOrder) (history : ℕ) (d : Dispatch)
    → (drain_from pending history d).0.point ≡ waiting
    → (pending ≡ [])
      × (must_continue history d ≡ false)
      × (d.degr.inflate_history ≡ false)
      × ((drain_from pending history d).0.fields ≡ d)
unfolding drain_from
drain-waiting [] history d h = ground (arith, finish-waiting history d)
drain-waiting (order ∷ pending) history d h = absurd (not_assigning order d.couriers _ h)
  where
    not_assigning :
        (order : PendingOrder) (couriers : List String) (d : Dispatch)
        → (take_courier order couriers d).0.point ≢ waiting
    not_assigning order [] d e = cc e
    not_assigning order (c ∷ couriers) d e = cc e

-- The body of the loop comes back to the wait only when everything is settled.
pub body-IsSettled :
    (history : ℕ) (d : Dispatch)
    → (body history d).0.point ≡ waiting
    → IsSettled history (body history d).0.fields
unfolding body drain
body-IsSettled history d h =
    let d' : Dispatch = (publish_status d).0 in
    let (empty, stays, quiet, same) = drain-waiting d'.pending history d' h in
    let (published, degr, pending) = publish_status_fields d in
    rw same (record { drained = empty; published = published; quiet = quiet; stays = stays })

-- The wait blocks only when everything is settled, but for a limit on orders that is not tested.
pub wakes-false :
    (history : ℕ) (d : Dispatch)
    → wakes history d ≡ false
    → (d.pending ≡ [])
      × (d.published_status ≡ status d.degr)
      × (d.degr.inflate_history ≡ false)
      × ((d.degr.suspend_can ≡ true) ⊎ (history ≤ max_history))
unfolding wakes
wakes-false history d h = ground (arith, eq_iff (status d.degr) d.published_status)
