-- ===== src/Generator/Run/Shifts.antt =====
-- The turns of `courier_loop` one by one, and the loop as a whole (generator.py).
use warden_demo_workload.Prelude.{
  ℕ, suc, ◌≡◌, refl, ap, sym, ◌⊎◌, inl, inr, none, some, List, [], ◌∷◌, ◌++◌, map, Bool-cases,
}
use warden_demo_workload.Prelude.Int.{ℤ}
use warden_demo_workload.Generator.Fleet.{
  Fleet, Tick, short_of, start_courier, bring_up, tick_from, courier_loop,
}
use warden_demo_workload.Generator.Run.{ticking, tested, courier_turn, turn_at}
use warden_demo_workload.Generator.Run.Views.{couriers_from}

ticking_from :
    (size : ℤ) (n : ℕ) (ticks : List Tick) (f : Fleet)
    → (couriers_from size ticks (record { phase = ticking n; fleet = f })).fleet
      ≡ tick_from n ticks f
unfolding tick_from courier_turn turn_at
ticking_from size n [] f = refl
ticking_from size n (t ∷ ticks) f = ticking_from size (suc n) ticks _

-- The turns go to the two loops, one part after the other; without enough hires they all go to the
-- first, and it is not over.
abbrev pub Splits : ℤ → List Tick → Fleet → Fleet → Type 0
Splits size turns f f' =
    (courier_loop size (map (λ t. t.hire) turns) [] f ≡ none)
    ⊎ (hires : List Tick) × (later : List Tick) × (turns ≡ hires ++ later)
      × (courier_loop size (map (λ t. t.hire) hires) later f ≡ some f')

pub couriers_from-Splits :
    (size : ℤ) (turns : List Tick) (f : Fleet)
    → Splits size turns f (couriers_from size turns (tested size f)).fleet
unfolding courier_loop bring_up courier_turn turn_at
couriers_from-Splits size [] f = elim (Bool-cases (short_of size f.couriers)) [
  | inl short ↦ inl (rw short refl)
  | inr full ↦ inr ([], [], refl, rw full refl)
]
couriers_from-Splits size (t ∷ turns) f = elim (Bool-cases (short_of size f.couriers)) [
  | inr full ↦ inr ([], t ∷ turns, refl, rw full (ap some (sym (ticking_from size 1 turns _))))
  | inl short ↦ rw short (elim (couriers_from-Splits size turns (start_courier t.hire f)) [
    | inl few ↦ inl few
    | inr (hires, later, split, same) ↦
        inr (t ∷ hires, later, ap (λ ts. t ∷ ts) split, rw short same)
  ])
]
