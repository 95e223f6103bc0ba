-- ===== src/Workflows/Batch/Winners.antt =====
-- Which candidates win a batch (workflows/batch.py).
use mathlib.Core.List.{Perm, perm_middle}
use mathlib.Core.List.Perm
use warden_demo_workload.Prelude.{
  ℕ, zero, suc, ◌≡◌, ◌+◌, refl, subst, List, [], ◌∷◌, ◌++◌, map, take, drop, arith, min, All,
  length, Bool-cases, inl, inr, ap, append-nil,
}
use warden_demo_workload.Prelude.Int.{◌≤ℤ◌, ltb_ℤ}
use warden_demo_workload.Python.Value.{Micro}
use warden_demo_workload.Workflows.Batch.{Ranked, insert, sort_onto, number_from, rank, winners}

-- No score of the list is above `x`.
abbrev Below : Micro → List Ranked → Type 0
Below x ys = All (λ y. y.1 ≤ℤ x) ys

abbrev Falls : List Ranked → Type 0
Falls [] = Unit
Falls (x ∷ xs) = Below x.1 xs × Falls xs

Below-weaken : (a b : Micro) (ys : List Ranked) → a ≤ℤ b → Below a ys → Below b ys
Below-weaken a b [] h below = tt
Below-weaken a b (y ∷ ys) h (first, below) = (omega arith, Below-weaken a b ys h below)

insert-Below :
    (b : Micro) (x : Ranked) (ys : List Ranked) → x.1 ≤ℤ b → Below b ys → Below b (insert x ys)
unfolding insert
insert-Below b x [] h below = (h, tt)
insert-Below b x (y ∷ ys) h (first, below) = elim (Bool-cases (ltb_ℤ y.1 x.1)) [
  | inl less ↦ rw less (h, (first, below))
  | inr not_less ↦ rw not_less (first, insert-Below b x ys h below)
]

insert-Falls : (x : Ranked) (ys : List Ranked) → Falls ys → Falls (insert x ys)
unfolding insert
insert-Falls x [] falls = (tt, tt)
insert-Falls x (y ∷ ys) (below, falls) = elim (Bool-cases (ltb_ℤ y.1 x.1)) [
  | inl less ↦
      let h : y.1 ≤ℤ x.1 = ground (arith, less) in
      rw less ((h, Below-weaken y.1 x.1 ys h below), (below, falls))
  | inr not_less ↦
      rw not_less (insert-Below y.1 x ys (ground (arith, not_less)) below, insert-Falls x ys falls)
]

insert-Perm : (x : Ranked) (ys : List Ranked) → Perm (insert x ys) (x ∷ ys)
unfolding insert
insert-Perm x [] = Perm.refl (x ∷ [])
insert-Perm x (y ∷ ys) = elim (Bool-cases (ltb_ℤ y.1 x.1)) [
  | inl less ↦ rw less (Perm.refl (x ∷ y ∷ ys))
  | inr not_less ↦ rw not_less (Perm.trans (Perm.cons y (insert-Perm x ys)) (Perm.swap x y ys))
]

sort_onto-Falls : (xs sorted : List Ranked) → Falls sorted → Falls (sort_onto xs sorted)
unfolding sort_onto
sort_onto-Falls [] sorted h = h
sort_onto-Falls (x ∷ xs) sorted h = sort_onto-Falls xs (insert x sorted) (insert-Falls x sorted h)

sort_onto-Perm : (xs sorted : List Ranked) → Perm (sort_onto xs sorted) (xs ++ sorted)
unfolding sort_onto
sort_onto-Perm [] sorted = Perm.refl sorted
sort_onto-Perm (x ∷ xs) sorted =
    Perm.trans (sort_onto-Perm xs (insert x sorted))
      (Perm.trans (Perm.append_left xs (insert-Perm x sorted)) (perm_middle xs sorted))

-- The places of the podium: all the scores, split in those that win and those that do not.
pub record IsPodium (scores : List Micro) (won : List ℕ) : Type 0 where
  pub first : List Ranked
  pub others : List Ranked
  pub all : Perm (first ++ others) (number_from 0 scores)
  pub named : won ≡ map (λ x. x.0) first
  pub size : length first ≡ min 3 (length scores)
  pub best : All (λ w. Below w.1 others) first

take-drop : (n : ℕ) (xs : List Ranked) → take n xs ++ drop n xs ≡ xs
take-drop zero xs = refl
take-drop (suc n) [] = refl
take-drop (suc n) (x ∷ xs) = ap (◌∷◌ x) (take-drop n xs)

length-take : (n : ℕ) (xs : List Ranked) → length (take n xs) ≡ min n (length xs)
length-take zero xs = omega arith
length-take (suc n) [] = omega arith
length-take (suc n) (x ∷ xs) = omega (arith, length-take n xs)

Below-drop : (n : ℕ) (b : Micro) (xs : List Ranked) → Below b xs → Below b (drop n xs)
Below-drop zero b xs h = h
Below-drop (suc n) b [] h = tt
Below-drop (suc n) b (x ∷ xs) (first, h) = Below-drop n b xs h

Falls-split : (n : ℕ) (xs : List Ranked) → Falls xs → All (λ w. Below w.1 (drop n xs)) (take n xs)
Falls-split zero xs falls = tt
Falls-split (suc n) [] falls = tt
Falls-split (suc n) (x ∷ xs) (below, falls) = (Below-drop n x.1 xs below, Falls-split n xs falls)

insert-length : (x : Ranked) (ys : List Ranked) → length (insert x ys) ≡ suc (length ys)
unfolding insert
insert-length x [] = refl
insert-length x (y ∷ ys) = ground (arith, insert-length x ys)

sort_onto-length :
    (xs sorted : List Ranked) → length (sort_onto xs sorted) ≡ length xs + length sorted
unfolding sort_onto
sort_onto-length [] sorted = omega arith
sort_onto-length (x ∷ xs) sorted =
    omega (arith, sort_onto-length xs (insert x sorted), insert-length x sorted)

length-number_from : (i : ℕ) (scores : List Micro) → length (number_from i scores) ≡ length scores
length-number_from i [] = refl
length-number_from i (s ∷ scores) = ap suc (length-number_from (suc i) scores)

-- The winners of a batch are the numbers of its best candidates: as many as there are, but three at
-- most, each candidate once, and none that does not win has a higher score than one that does.
pub winners-IsPodium : (scores : List Micro) → IsPodium scores (winners scores)
unfolding winners rank
winners-IsPodium scores =
    let entries : List Ranked = number_from 0 scores in
    let ranked : List Ranked = sort_onto entries [] in
    record {
      first = take 3 ranked;
      others = drop 3 ranked;
      all =
          rw (take-drop 3 ranked)
            (subst (Perm ranked) (append-nil entries) (sort_onto-Perm entries []));
      named = refl;
      size =
          omega
            (arith, length-take 3 ranked, sort_onto-length entries [], length-number_from 0 scores);
      best = Falls-split 3 ranked (sort_onto-Falls entries [] tt);
    }
