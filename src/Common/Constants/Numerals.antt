-- ===== src/Common/Constants/Numerals.antt =====
-- Numbers as `str` prints them in ids (common/constants.py).
use Prim.Native.Char.{code}
use text.Mathlib.TextLemmas.{nil-append, cons-append}
use Prim.Native.String.{◌++◌ as ◌⧺◌}
use warden_demo_workload.Prelude.{
  ℕ, zero, suc, ◌+◌, ◌-◌, ◌*◌, ◌/◌, ◌%◌, ◌<◌, ◌≡◌, refl, sym, ap, ◌∙◌, String, List, [], ◌∷◌, ◌++◌,
  ◌≤◌, false, if◌then◌else◌, All, All-append, Bool-cases, inl, inr, ltb, arith,
}
use warden_demo_workload.Common.Config.{codes}
use warden_demo_workload.Common.Constants.{digit, show_from, show}

-- The number that digits give, after those that gave `acc`.
abbrev value : ℕ → List ℕ → ℕ
value acc [] = acc
value acc (c ∷ cs) = value (acc * 10 + (c - 48)) cs

value-append : (acc : ℕ) (xs ys : List ℕ) → value acc (xs ++ ys) ≡ value (value acc xs) ys
value-append acc [] ys = refl
value-append acc (x ∷ xs) ys = value-append (acc * 10 + (x - 48)) xs ys

codes-append : (s t : String) → codes (s ⧺ t) ≡ codes s ++ codes t
codes-append String.[] t = ap codes (nil-append t)
codes-append (String.◌∷◌ c s) t =
    ap codes (cons-append c s t) ∙ ap (λ cs. code c ∷ cs) (codes-append s t)

value-digit : (acc n : ℕ) → n < 10 → value acc (codes (digit n)) ≡ acc * 10 + n
value-digit acc zero h = refl
value-digit acc (suc zero) h = refl
value-digit acc (suc (suc zero)) h = refl
value-digit acc (suc (suc (suc zero))) h = refl
value-digit acc (suc (suc (suc (suc zero)))) h = refl
value-digit acc (suc (suc (suc (suc (suc zero))))) h = refl
value-digit acc (suc (suc (suc (suc (suc (suc zero)))))) h = refl
value-digit acc (suc (suc (suc (suc (suc (suc (suc zero))))))) h = refl
value-digit acc (suc (suc (suc (suc (suc (suc (suc (suc zero)))))))) h = refl
value-digit acc (suc (suc (suc (suc (suc (suc (suc (suc (suc n))))))))) h = omega (arith, h)

value-show_from : (fuel n : ℕ) → n < fuel → value 0 (codes (show_from fuel n)) ≡ n
unfolding show_from
value-show_from zero n h = absurd (omega (arith, h))
value-show_from (suc fuel) n h = elim (Bool-cases (ltb n 10)) [
  | inl small ↦ rw small (value-digit 0 n (ground (arith, small)) ∙ omega arith)
  | inr large ↦
      let big : 10 < suc n = ground (arith, large) in
      let front : value 0 (codes (show_from fuel (n / 10))) ≡ n / 10 =
        value-show_from fuel (n / 10) (omega (arith, h, big)) in
      rw large (
        ap (value 0) (codes-append (show_from fuel (n / 10)) (digit (n % 10)))
        ∙ value-append 0 (codes (show_from fuel (n / 10))) (codes (digit (n % 10)))
        ∙ ap (λ k. value k (codes (digit (n % 10)))) front
        ∙ value-digit (n / 10) (n % 10) (omega arith)
        ∙ omega arith)
]

-- Two numbers with the same digits are the same.
value-show : (m n : ℕ) → codes (show m) ≡ codes (show n) → m ≡ n
unfolding show
value-show m n same =
    sym (value-show_from (suc m) m (omega arith))
    ∙ ap (value 0) same
    ∙ value-show_from (suc n) n (omega arith)

-- Two numbers that are printed alike are the same.
pub show-injective : (m n : ℕ) → show m ≡ show n → m ≡ n
show-injective m n same = value-show m n (ap codes same)

-- The code points before the first dash.
abbrev before_dash : List ℕ → List ℕ
before_dash [] = []
before_dash (c ∷ cs) = if ltb c 48 then [] else c ∷ before_dash cs

-- Code points of digits, or of later characters.
abbrev AreDigits : List ℕ → Type 0
AreDigits = All (λ c. 48 ≤ c)

before_dash-append : (cs rest : List ℕ) → AreDigits cs → before_dash (cs ++ 45 ∷ rest) ≡ cs
before_dash-append [] rest h = refl
before_dash-append (c ∷ cs) rest (h, hs) =
    let large : ltb c 48 ≡ false = ground (arith, h) in
    rw large (ap (λ ds. c ∷ ds) (before_dash-append cs rest hs))

digit-AreDigits : (n : ℕ) → AreDigits (codes (digit n))
digit-AreDigits zero = (omega arith, tt)
digit-AreDigits (suc zero) = (omega arith, tt)
digit-AreDigits (suc (suc zero)) = (omega arith, tt)
digit-AreDigits (suc (suc (suc zero))) = (omega arith, tt)
digit-AreDigits (suc (suc (suc (suc zero)))) = (omega arith, tt)
digit-AreDigits (suc (suc (suc (suc (suc zero))))) = (omega arith, tt)
digit-AreDigits (suc (suc (suc (suc (suc (suc zero)))))) = (omega arith, tt)
digit-AreDigits (suc (suc (suc (suc (suc (suc (suc zero))))))) = (omega arith, tt)
digit-AreDigits (suc (suc (suc (suc (suc (suc (suc (suc zero)))))))) = (omega arith, tt)
digit-AreDigits (suc (suc (suc (suc (suc (suc (suc (suc (suc n))))))))) = (omega arith, tt)

show_from-AreDigits : (fuel n : ℕ) → AreDigits (codes (show_from fuel n))
unfolding show_from
show_from-AreDigits zero n = tt
show_from-AreDigits (suc fuel) n = elim (Bool-cases (ltb n 10)) [
  | inl small ↦ rw small (digit-AreDigits n)
  | inr large ↦
      rw (large, codes-append (show_from fuel (n / 10)) (digit (n % 10)))
        (All-append (λ c. 48 ≤ c) (codes (show_from fuel (n / 10))) (codes (digit (n % 10)))
          (show_from-AreDigits fuel (n / 10)) (digit-AreDigits (n % 10)))
]

before_dash-show : (n : ℕ) (s : String) → before_dash (codes (show n ⧺ "-" ⧺ s)) ≡ codes (show n)
unfolding show
before_dash-show n s =
    ap before_dash
      (codes-append (show n) ("-" ⧺ s) ∙ ap (λ cs. codes (show n) ++ cs) (codes-append "-" s))
    ∙ before_dash-append (codes (show n)) (codes s) (show_from-AreDigits (suc n) n)

-- Numbers with a suffix after a dash that are printed alike are the same.
pub show_dash-injective : (m n : ℕ) (s t : String) → show m ⧺ "-" ⧺ s ≡ show n ⧺ "-" ⧺ t → m ≡ n
show_dash-injective m n s t same =
    let digits : codes (show m) ≡ codes (show n) =
      sym (before_dash-show m s) ∙ ap (λ x. before_dash (codes x)) same ∙ before_dash-show n t in
    value-show m n digits
