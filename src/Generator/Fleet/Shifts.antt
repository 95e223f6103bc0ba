-- ===== src/Generator/Fleet/Shifts.antt =====
-- The couriers that `courier_loop` starts and sends home (generator.py).
use mathlib.Core.List.{map-append}
use warden_demo_workload.Prelude.{
  subst, ℕ, suc, ◌≡◌, refl, Option, none, some, List, [], ◌∷◌, ◌++◌, map, Bool-cases, inl, inr,
  String, append-nil, append_assoc,
}
use warden_demo_workload.Prelude.Int.{ℤ, pos, ltb_ℤ}
use warden_demo_workload.Common.Constants.{courier_id}
use warden_demo_workload.Workflows.Courier.{Signal, location_ping, assignment, end_shift}
use warden_demo_workload.Generator.Fleet.{
  chatted, dismissed, StartOutcome, started, already_started, failed, Hire, Tick, Fleet, Request,
  start, signal, short_of, enroll, hand_to, start_courier, ping_all, hand_out, retire, tick,
  tick_from, is_fourth, bring_up,
}

-- The workflows that were started, or were there already.
abbrev pub added : StartOutcome → String → List String
added started id = id ∷ []
added already_started id = id ∷ []
added failed id = []

abbrev pub enrolled : List Request → List String
enrolled [] = []
enrolled (start id queue input pairs outcome ∷ sent) = added outcome id ++ enrolled sent
enrolled (signal id call ∷ sent) = enrolled sent

-- The workflows that were told to end their shift.
abbrev ended_by : String → Signal → List String
ended_by id end_shift = id ∷ []
ended_by id (location_ping lat lon) = []
ended_by id (assignment order_id) = []

abbrev pub sent_home : List Request → List String
sent_home [] = []
sent_home (start id queue input pairs outcome ∷ sent) = sent_home sent
sent_home (signal id call ∷ sent) = ended_by id call ++ sent_home sent

pub enrolled-append : (a b : List Request) → enrolled (a ++ b) ≡ enrolled a ++ enrolled b
enrolled-append [] b = refl
enrolled-append (start id queue input pairs o ∷ a) b = rw (enrolled-append a b, append_assoc) refl
enrolled-append (signal id call ∷ a) b = enrolled-append a b

sent_home-append : (a b : List Request) → sent_home (a ++ b) ≡ sent_home a ++ sent_home b
sent_home-append [] b = refl
sent_home-append (start id queue input pairs o ∷ a) b = sent_home-append a b
sent_home-append (signal id call ∷ a) b = rw (sent_home-append a b, append_assoc) refl

-- Every courier that was started has been sent home or is in the fleet, oldest first.
abbrev pub IsInShifts : Fleet → Type 0
IsInShifts f = sent_home f.sent ++ map courier_id f.couriers ≡ enrolled f.sent

enroll-map :
    (o : StartOutcome) (cid : String) (couriers : List String)
    → map courier_id (enroll o cid couriers) ≡ map courier_id couriers ++ added o (courier_id cid)
enroll-map started cid couriers = map-append courier_id couriers (cid ∷ [])
enroll-map already_started cid couriers = map-append courier_id couriers (cid ∷ [])
enroll-map failed cid couriers = rw append-nil refl

start_courier-IsInShifts : (h : Hire) (f : Fleet) → IsInShifts f → IsInShifts (start_courier h f)
unfolding start_courier
start_courier-IsInShifts h f k =
    rw (sent_home-append, enrolled-append, enroll-map, append-nil, ← append_assoc, k, append-nil)
      refl

-- Requests that neither start a shift nor end one.
abbrev IsIdle : List Request → Type 0
IsIdle sent = (sent_home sent ≡ []) × (enrolled sent ≡ [])

pub ping_all-IsIdle :
    (fractions : ℕ → ℕ × ℕ) (couriers : List String) → IsIdle (ping_all fractions couriers)
unfolding ping_all
ping_all-IsIdle fractions [] = (refl, refl)
ping_all-IsIdle fractions (cid ∷ couriers) = ping_all-IsIdle (λ n. fractions (suc n)) couriers

hand_to-IsIdle : (o : Option String) (order : String) → IsIdle (hand_to o order)
hand_to-IsIdle none order = (refl, refl)
hand_to-IsIdle (some cid) order = (refl, refl)

pub hand_out-IsIdle : (t : Tick) (couriers : List String) → IsIdle (hand_out t couriers)
unfolding hand_out
hand_out-IsIdle t [] = (refl, refl)
hand_out-IsIdle t (c ∷ couriers) = elim (Bool-cases (ltb_ℤ t.chance (pos 500000))) [
  | inl hit ↦ rw hit (hand_to-IsIdle _ t.order)
  | inr missed ↦ rw missed (refl, refl)
]

chatted-IsInShifts : (t : Tick) (f : Fleet) → IsInShifts f → IsInShifts (chatted t f)
chatted-IsInShifts t f k =
    let (h, h') = ping_all-IsIdle t.fractions f.couriers in
    let (g, g') = hand_out-IsIdle t f.couriers in
    rw
      (
        sent_home-append (f.sent ++ ping_all t.fractions f.couriers),
        sent_home-append f.sent,
        enrolled-append (f.sent ++ ping_all t.fractions f.couriers),
        enrolled-append f.sent,
        h,
        h',
        g,
        g',
        append-nil,
      )
      (rw (append-nil, append-nil (enrolled f.sent), append-nil (enrolled f.sent)) k)

retire-IsInShifts :
    (h : Hire) (couriers : List String) (f : Fleet)
    → f.couriers ≡ couriers
    → IsInShifts f
    → IsInShifts (retire h couriers f)
unfolding retire
retire-IsInShifts h [] f e k = k
retire-IsInShifts h (old ∷ couriers) f e k = start_courier-IsInShifts h (dismissed old couriers f) (
    rw (sent_home-append, enrolled-append, append_assoc, append-nil (enrolled f.sent))
      (subst (λ c. sent_home f.sent ++ map courier_id c ≡ enrolled f.sent) e k))

tick-IsInShifts : (n : ℕ) (t : Tick) (f : Fleet) → IsInShifts f → IsInShifts (tick n t f)
unfolding tick
tick-IsInShifts n t f k = elim (Bool-cases (is_fourth n)) [
  | inl fourth ↦
      rw fourth (retire-IsInShifts t.hire f.couriers (chatted t f) refl (chatted-IsInShifts t f k))
  | inr other ↦ rw other (chatted-IsInShifts t f k)
]

pub tick_from-IsInShifts :
    (n : ℕ) (ticks : List Tick) (f : Fleet) → IsInShifts f → IsInShifts (tick_from n ticks f)
unfolding tick_from
tick_from-IsInShifts n [] f k = k
tick_from-IsInShifts n (t ∷ ticks) f k =
    tick_from-IsInShifts (suc n) ticks (tick (suc n) t f) (tick-IsInShifts (suc n) t f k)

pub bring_up-IsInShifts :
    (size : ℤ) (hires : List Hire) (f f' : Fleet)
    → IsInShifts f
    → bring_up size hires f ≡ some f'
    → IsInShifts f'
unfolding bring_up
bring_up-IsInShifts size [] f f' k e = elim (Bool-cases (short_of size f.couriers)) [
  | inl short ↦ cc (rw short at e)
  | inr full ↦
      let same : some f ≡ some f' = rw full at e in
      let e' : f ≡ f' = cc same in subst IsInShifts e' k
]
bring_up-IsInShifts size (h ∷ hires) f f' k e = elim (Bool-cases (short_of size f.couriers)) [
  | inl short ↦
      bring_up-IsInShifts size hires (start_courier h f) f' (start_courier-IsInShifts h f k)
        (rw short at e)
  | inr full ↦
      let same : some f ≡ some f' = rw full at e in
      let e' : f ≡ f' = cc same in subst IsInShifts e' k
]
