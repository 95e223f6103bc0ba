-- ===== src/Python/Value.antt =====
-- The values of a scenario's parameters, and the conversions `bool`, `int` and `float`.
use warden_demo_workload.Prelude.{
  zero, suc, String, Bool, true, false, not, Option, none, some, ◌*◌, ◌/◌, ◌==◌, if◌then◌else◌, ◌-◌,
}
use warden_demo_workload.Prelude.Int.{ℤ, pos, negsuc}

-- Floats stand as whole numbers of millionths.
abbrev pub Micro : Type 0
Micro = ℤ

-- A JSON value. `other` is a list or an object, of which the program reads the truth value alone.
pub data Value : Type 0 where
  null : Value
  bool : Bool → Value
  int : ℤ → Value
  float : Micro → Value
  str : String → Value
  other : Bool → Value

-- The exceptions that the models tell apart; `docker_error` is one of the Docker client.
pub data PyError : Type 0 where
  type_error value_error docker_error : PyError

-- A call that may end by an exception, with the state that it leaves.
abbrev pub Attempt : Type 0 → Type 0
Attempt S = Option PyError × S

pub data Result {ℓ} (A : Type ℓ) : Type ℓ where
  ok : A → Result A
  raised : PyError → Result A

infixl 5 ◌>>=◌
abbrev pub ◌>>=◌ {ℓ κ} : {A : Type ℓ} {B : Type κ} → Result A → (A → Result B) → Result B
ok a >>= f = f a
raised e >>= f = raised e

-- What Python itself does with text and values: parsing of numbers, `str`, and `==`.
pub record Conversions : Type 0 where
  pub parse_int : String → Option ℤ
  pub parse_float : String → Option Micro
  pub format : Value → String
  pub equal : Value → Value → Bool

abbrev pub is_zero : ℤ → Bool
is_zero (pos n) = elim n [ zero ↦ true | suc m ↦ false ]
is_zero (negsuc n) = false

-- `bool(v)`
abbrev pub truthy : Value → Bool
truthy null = false
truthy (bool b) = b
truthy (int n) = not (is_zero n)
truthy (float x) = not (is_zero x)
truthy (str s) = not (s == "")
truthy (other b) = b

abbrev pub parsed {ℓ} : {A : Type ℓ} → Option A → Result A
parsed none = raised value_error
parsed (some a) = ok a

abbrev pub of_bool : Bool → ℤ
of_bool b = if b then pos 1 else pos 0

-- Towards zero.
abbrev pub truncate : Micro → ℤ
truncate (pos n) = pos (n / 1000000)
truncate (negsuc n) = let m = suc n / 1000000 in elim m [ zero ↦ pos 0 | suc k ↦ negsuc k ]

abbrev pub scale : ℤ → Micro
scale (pos n) = pos (n * 1000000)
scale (negsuc n) = negsuc (suc n * 1000000 - 1)

-- `int(v)`
abbrev pub to_int : Conversions → Value → Result ℤ
to_int cv null = raised type_error
to_int cv (bool b) = ok (of_bool b)
to_int cv (int n) = ok n
to_int cv (float x) = ok (truncate x)
to_int cv (str s) = parsed (cv.parse_int s)
to_int cv (other b) = raised type_error

-- `float(v)`
abbrev pub to_float : Conversions → Value → Result Micro
to_float cv null = raised type_error
to_float cv (bool b) = ok (scale (of_bool b))
to_float cv (int n) = ok (scale n)
to_float cv (float x) = ok x
to_float cv (str s) = parsed (cv.parse_float s)
to_float cv (other b) = raised type_error
