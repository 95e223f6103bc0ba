-- ===== src/Generator/Fleet/Growth.antt =====
-- When `courier_loop` has brought its fleet up (generator.py).
use warden_demo_workload.Prelude.{
  ℕ, ◌+◌, ◌≤◌, ◌<◌, ◌≡◌, ◌⊎◌, inl, inr, refl, true, false, Option, none, some, List, [], ◌∷◌,
  length, length-append, max, arith, Bool-cases, String,
}
use warden_demo_workload.Prelude.Int.{ℤ, pos, negsuc, pos_part}
use warden_demo_workload.Generator.Fleet.{
  StartOutcome, started, already_started, failed, Hire, Fleet, enroll, start_courier, short_of,
  bring_up,
}

-- 1 for a start that gives the fleet a courier.
abbrev pub enrolls : StartOutcome → ℕ
enrolls started = 1
enrolls already_started = 1
enrolls failed = 0

pub enrolls_le_one : (o : StartOutcome) → enrolls o ≤ 1
enrolls_le_one started = omega arith
enrolls_le_one already_started = omega arith
enrolls_le_one failed = omega arith

abbrev pub hired : List Hire → ℕ
hired [] = 0
hired (h ∷ hires) = enrolls h.outcome + hired hires

pub length-enroll :
    (o : StartOutcome) (cid : String) (couriers : List String)
    → length (enroll o cid couriers) ≡ length couriers + enrolls o
length-enroll started cid couriers = length-append couriers (cid ∷ [])
length-enroll already_started cid couriers = length-append couriers (cid ∷ [])
length-enroll failed cid couriers = omega arith

pub length-start_courier :
    (h : Hire) (f : Fleet)
    → length (start_courier h f).couriers ≡ length f.couriers + enrolls h.outcome
unfolding start_courier
length-start_courier h f = length-enroll h.outcome _ f.couriers

-- The size of the fleet, or 0 when that is negative.
short_of-true :
    (size : ℤ) (couriers : List String)
    → short_of size couriers ≡ true
    → length couriers < pos_part size
short_of-true (pos n) couriers h = ground (arith, h)
short_of-true (negsuc n) couriers h = ground (arith, h)

short_of-false :
    (size : ℤ) (couriers : List String)
    → short_of size couriers ≡ false
    → pos_part size ≤ length couriers
short_of-false (pos n) couriers h = ground (arith, h)
short_of-false (negsuc n) couriers h = omega arith

-- How the first loop ends.
abbrev pub BringUp : ℤ → List Hire → Fleet → Option Fleet → Type 0
BringUp size hires f r =
    ((pos_part size ≤ length f.couriers + hired hires)
      × ((f' : Fleet) × (r ≡ some f')
          × (length f'.couriers ≡ max (pos_part size) (length f.couriers))))
    ⊎ ((length f.couriers + hired hires < pos_part size) × (r ≡ none))

full-BringUp :
    (size : ℤ) (hires : List Hire) (f : Fleet)
    → pos_part size ≤ length f.couriers
    → BringUp size hires f (some f)
full-BringUp size hires f h = inl (omega (arith, h), (f, refl, omega (arith, h)))

more-BringUp :
    (size : ℤ) (h : Hire) (hires : List Hire) (f : Fleet) (r : Option Fleet)
    → length f.couriers < pos_part size
    → BringUp size hires (start_courier h f) r
    → BringUp size (h ∷ hires) f r
more-BringUp size h hires f r short (inl (enough, (f', e, n))) = inl (
  omega (arith, length-start_courier h f),
  (f', e, omega (arith, n, short, enrolls_le_one h.outcome, length-start_courier h f)),
)
more-BringUp size h hires f r short (inr (few, e)) =
    inr (omega (arith, length-start_courier h f), e)

-- The first loop ends as soon as the starts that succeed are enough for the fleet, with exactly the
-- configured number of couriers if it had no more before; until then it goes on, however many starts
-- fail.
pub bring_up-BringUp :
    (size : ℤ) (hires : List Hire) (f : Fleet) → BringUp size hires f (bring_up size hires f)
unfolding bring_up
bring_up-BringUp size [] f = elim (Bool-cases (short_of size f.couriers)) [
  | inl short ↦ rw short (inr (omega (arith, short_of-true size f.couriers short), refl))
  | inr full ↦ rw full (full-BringUp size [] f (short_of-false size f.couriers full))
]
bring_up-BringUp size (h ∷ hires) f = elim (Bool-cases (short_of size f.couriers)) [
  | inl short ↦ rw short (
      more-BringUp size h hires f (bring_up size hires (start_courier h f))
        (short_of-true size f.couriers short) (bring_up-BringUp size hires (start_courier h f)))
  | inr full ↦ rw full (full-BringUp size (h ∷ hires) f (short_of-false size f.couriers full))
]
