-- ===== src/Generator/Fleet/Decline.antt =====
-- How the fleet of `courier_loop` shrinks, and the loop as a whole (generator.py).
use warden_demo_workload.Prelude.{
  IsDistinct, ℕ, suc, ◌+◌, ◌-◌, ◌≤◌, ◌≡◌, refl, ◌∙◌, some, List, [], ◌∷◌, length, arith, Bool-cases,
  inl, inr, String, if◌then◌else◌,
}
use warden_demo_workload.Prelude.Int.{ℤ, pos_part}
use warden_demo_workload.Generator.Fleet.{
  chatted, dismissed, Hire, Tick, Fleet, init, retire, tick, tick_from, is_fourth, courier_loop,
}
use warden_demo_workload.Generator.Fleet.Growth.{
  enrolls, enrolls_le_one, length-start_courier, bring_up-BringUp, hired,
}
use warden_demo_workload.Generator.Fleet.Names.{tick_from-HasNew, bring_up-HasNew}
use warden_demo_workload.Generator.Fleet.Shifts.{
  enrolled, IsInShifts, bring_up-IsInShifts, tick_from-IsInShifts,
}

-- 1 for a fourth turn whose start fails.
abbrev pub loses : ℕ → Tick → ℕ
loses n t = if is_fourth n then 1 - enrolls t.hire.outcome else 0

abbrev pub lost_from : ℕ → List Tick → ℕ
lost_from n [] = 0
lost_from n (t ∷ ticks) = loses (suc n) t + lost_from (suc n) ticks

length-retire :
    (h : Hire) (couriers : List String) (f : Fleet)
    → f.couriers ≡ couriers
    → length (retire h couriers f).couriers ≡ length couriers - (1 - enrolls h.outcome)
unfolding retire
length-retire h [] f e = rw e (omega arith)
length-retire h (old ∷ couriers) f e =
    length-start_courier h (dismissed old couriers f) ∙ omega (arith, enrolls_le_one h.outcome)

length-tick :
    (n : ℕ) (t : Tick) (f : Fleet) → length (tick n t f).couriers ≡ length f.couriers - loses n t
unfolding tick
length-tick n t f = elim (Bool-cases (is_fourth n)) [
  | inl fourth ↦ rw fourth (length-retire t.hire f.couriers (chatted t f) refl)
  | inr other ↦ rw other (omega arith)
]

length-tick_from :
    (n : ℕ) (ticks : List Tick) (f : Fleet)
    → length (tick_from n ticks f).couriers ≡ length f.couriers - lost_from n ticks
unfolding tick_from
length-tick_from n [] f = omega arith
length-tick_from n (t ∷ ticks) f =
    omega (arith, length-tick (suc n) t f, length-tick_from (suc n) ticks (tick (suc n) t f))

-- The fleet after some turns.
pub record IsFleet (size : ℤ) (ticks : List Tick) (f : Fleet) : Type 0 where
  pub shifts : IsInShifts f
  pub once : IsDistinct (enrolled f.sent)
  pub counted : length f.couriers ≡ pos_part size - lost_from 0 ticks

-- With starts enough that succeed, the loop gets past bringing up its fleet. After any turns from
-- then on, no courier has been started twice, and those that were started are those sent home and those
-- in the fleet, in the order in which they started, so each goes home once and the oldest first; and the
-- fleet has its configured size less one for each fourth turn whose start failed, down to none: the
-- loop does not make up for a failed start.
pub courier_loop-IsFleet :
    (size : ℤ) (hires : List Hire) (ticks : List Tick)
    → pos_part size ≤ hired hires
    → (f : Fleet) × (courier_loop size hires ticks init ≡ some f) × IsFleet size ticks f
unfolding courier_loop
courier_loop-IsFleet size hires ticks enough = elim (bring_up-BringUp size hires init) [
  | inr (few, e) ↦ absurd (omega (arith, few, enough))
  | inl (h, (f', e, n)) ↦ (
    tick_from 0 ticks f',
    rw e refl,
    record {
      once =
          (tick_from-HasNew 0 ticks f' (
            bring_up-HasNew size hires init f' (record { numbered = tt; distinct = tt })
              e)).distinct;
      shifts = tick_from-IsInShifts 0 ticks f' (bring_up-IsInShifts size hires init f' refl e);
      counted = omega (arith, n, length-tick_from 0 ticks f');
    },
  )
]
