-- ===== src/Emulation/Float/Convert/Clipping.antt =====
-- Which results of the range checks of `emulate_fcvt_if` are those of the RISC-V manual, which clips
-- a number to the range of the type.
use lowrisc_kc.Base.{ℕ, ◌-◌, ◌^◌, ◌≡◌, ◌↔◌, Bool, true, false, arith, if◌then◌else◌}
use lowrisc_kc.Base.Int.{ℤ, pos, sub_ℕ, signed, ltb_ℤ}
use lowrisc_kc.Emulation.Float.Convert.{saturate}
use lowrisc_kc.Emulation.Float.Convert.Limits.{number}

-- FCVT.W, FCVT.WU, FCVT.L and FCVT.LU.
pub data Conversion : Type 0 where
  to_w to_wu to_l to_lu : Conversion

unfoldable pub field_of : Conversion → ℕ
field_of to_w = 0
field_of to_wu = 1
field_of to_l = 2
field_of to_lu = 3

-- The range of the type.
unfoldable pub least : Conversion → ℤ
least to_w = sub_ℕ 0 (2 ^ 31)
least to_wu = pos 0
least to_l = sub_ℕ 0 (2 ^ 63)
least to_lu = pos 0

unfoldable pub greatest : Conversion → ℤ
greatest to_w = pos (2 ^ 31 - 1)
greatest to_wu = pos (2 ^ 32 - 1)
greatest to_l = pos (2 ^ 63 - 1)
greatest to_lu = pos (2 ^ 64 - 1)

unfoldable pub clipped : Conversion → ℤ → ℤ
unfolding least greatest
clipped k z = if ltb_ℤ z (least k) then least k else if ltb_ℤ (greatest k) z then greatest k else z

unfoldable pub is_outside : Conversion → ℤ → Bool
unfolding least greatest
is_outside k z = if ltb_ℤ z (least k) then true else ltb_ℤ (greatest k) z

-- What the register holds; that of an unsigned conversion is read as an unsigned number.
unfoldable pub value_of : Conversion → ℕ → ℤ
value_of to_w r = signed 64 r
value_of to_wu r = pos r
value_of to_l r = signed 64 r
value_of to_lu r = pos r

-- The negative numbers in an unsigned conversion, and those below the range of FCVT.W.
unfoldable pub deviates : Conversion → ℤ → Bool
deviates to_w z = ltb_ℤ z (sub_ℕ 0 (2 ^ 31))
deviates to_wu z = ltb_ℤ z (pos 0)
deviates to_l z = false
deviates to_lu z = ltb_ℤ z (pos 0)

-- The conversions raise the invalid flag exactly for the numbers outside the range of their type,
-- and put the clipped number into the register exactly where the number is not negative in an
-- unsigned conversion and not below the range of FCVT.W.
pub saturate-clipped :
    (k : Conversion) (negative : Bool) (u : ℕ)
    → let r = saturate (field_of k) (record { negative = negative; uint_val = u }) in
      (r.1 ≡ is_outside k (number negative u))
      × ((value_of k r.0 ≡ clipped k (number negative u))
          ↔ (deviates k (number negative u) ≡ false))
unfolding saturate field_of clipped is_outside value_of deviates
saturate-clipped to_w true u = (ground arith, (λ h. ground arith, λ h. ground arith))
saturate-clipped to_w false u = (ground arith, (λ h. ground arith, λ h. ground arith))
saturate-clipped to_wu true u = (ground arith, (λ h. ground arith, λ h. ground arith))
saturate-clipped to_wu false u = (ground arith, (λ h. ground arith, λ h. ground arith))
saturate-clipped to_l true u = (ground arith, (λ h. ground arith, λ h. ground arith))
saturate-clipped to_l false u = (ground arith, (λ h. ground arith, λ h. ground arith))
saturate-clipped to_lu true u = (ground arith, (λ h. ground arith, λ h. ground arith))
saturate-clipped to_lu false u = (ground arith, (λ h. ground arith, λ h. ground arith))
