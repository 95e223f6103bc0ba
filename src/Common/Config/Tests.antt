-- ===== src/Common/Config/Tests.antt =====
-- The switch for stages on concrete texts.
use warden_demo_workload.Prelude.{◌≡◌, refl, true, false, none, some}
use warden_demo_workload.Common.Config.{flag}

test_padded : flag (some " Yes\n") false ≡ true
unfolding flag
test_padded = refl

test_empty : flag (some "") true ≡ true
unfolding flag
test_empty = refl

test_zero : flag (some "0") true ≡ false
unfolding flag
test_zero = refl

test_unset : flag none true ≡ true
unfolding flag
test_unset = refl
