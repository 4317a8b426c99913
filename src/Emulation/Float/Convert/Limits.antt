-- ===== src/Emulation/Float/Convert/Limits.antt =====
-- What the range checks of `emulate_fcvt_if` come to.
use lowrisc_kc.Base.{ℕ, ◌^◌, Bool, if◌then◌else◌}
use lowrisc_kc.Base.Int.{ℤ, pos, sub_ℕ}

abbrev pub number : Bool → ℕ → ℤ
number negative u = if negative then sub_ℕ 0 u else pos u

-- The two signed conversions, with the width of their range.
pub data Signed : Type 0 where
  to_int32 to_int64 : Signed

unfoldable pub kind : Signed → ℕ
kind to_int32 = 0
kind to_int64 = 2

unfoldable pub half : Signed → ℕ
half to_int32 = 2 ^ 31
half to_int64 = 2 ^ 63
