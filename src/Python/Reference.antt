-- ===== src/Python/Reference.antt =====
-- Conversions that meet the interface of Python/Value.antt on text: no text is read as a number.
use warden_demo_workload.Prelude.{String, Bool, false, none, ◌==◌}
use warden_demo_workload.Python.Value.{Value, null, bool, int, float, str, other, Conversions}

abbrev text_of : Value → String
text_of (str s) = s
text_of null = "None"
text_of (bool b) = "bool"
text_of (int n) = "int"
text_of (float x) = "float"
text_of (other b) = "other"

abbrev equal_text : Value → Value → Bool
equal_text (str s) (str t) = s == t
equal_text (str s) null = false
equal_text (str s) (bool b) = false
equal_text (str s) (int n) = false
equal_text (str s) (float x) = false
equal_text (str s) (other b) = false
equal_text null w = false
equal_text (bool b) w = false
equal_text (int n) w = false
equal_text (float x) w = false
equal_text (other b) w = false

abbrev pub text_conversions : Conversions
text_conversions = record {
  parse_int = λ s. none;
  parse_float = λ s. none;
  format = text_of;
  equal = equal_text;
}
