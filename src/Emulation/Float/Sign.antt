-- ===== src/Emulation/Float/Sign.antt =====
-- Sign injection: FSGNJ, FSGNJN and FSGNJX by their meaning on sign and magnitude.
use lowrisc_kc.Base.{
  ℕ, zero, suc, ◌+◌, ◌-◌, ◌*◌, ◌/◌, ◌%◌, ◌^◌, ◌<◌, ◌≡◌, refl, ap, ◌∙◌, bit_and, bit_or, bit_xor,
  arith,
}
use lowrisc_kc.Base.Bits.{bit_or_low}
use lowrisc_kc.Emulation.Float.{do_fsgnj}

-- The sign of the result, by `rm`: that of rs2, its opposite, or the two signs combined.
unfoldable pub sign_of : (rm sign1 sign2 : ℕ) → ℕ
sign_of zero a b = b
sign_of (suc zero) a b = 1 - b
sign_of (suc (suc n)) a b = (a + b) % 2

-- The word that DO_FSGNJ computes for the sign, modulo the shift that follows.
sign_bit :
    (rm a b : ℕ)
    → rm < 3
    → a < 2
    → b < 2
    → bit_xor (bit_and a (rm / 2)) (bit_xor rm b) % 2 ≡ sign_of rm a b
unfolding sign_of
sign_bit zero zero zero h p q = refl
sign_bit zero zero (suc zero) h p q = refl
sign_bit zero (suc zero) zero h p q = refl
sign_bit zero (suc zero) (suc zero) h p q = refl
sign_bit (suc zero) zero zero h p q = refl
sign_bit (suc zero) zero (suc zero) h p q = refl
sign_bit (suc zero) (suc zero) zero h p q = refl
sign_bit (suc zero) (suc zero) (suc zero) h p q = refl
sign_bit (suc (suc zero)) zero zero h p q = refl
sign_bit (suc (suc zero)) zero (suc zero) h p q = refl
sign_bit (suc (suc zero)) (suc zero) zero h p q = refl
sign_bit (suc (suc zero)) (suc zero) (suc zero) h p q = refl
sign_bit rm (suc (suc a)) b h p q = absurd (omega arith)
sign_bit rm a (suc (suc b)) h p q = absurd (omega arith)
sign_bit (suc (suc (suc n))) a b h p q = absurd (omega arith)

join32 : (m s : ℕ) → m < 2 ^ 31 → bit_or m (s * 2 ^ 31 % 2 ^ 32) ≡ m + s % 2 * 2 ^ 31
join32 m s h = ap (bit_or m) (omega arith) ∙ bit_or_low 31 (s % 2) m h

join64 : (m s : ℕ) → m < 2 ^ 63 → bit_or m (s * 2 ^ 63 % 2 ^ 64) ≡ m + s % 2 * 2 ^ 63
join64 m s h = ap (bit_or m) (omega arith) ∙ bit_or_low 63 (s % 2) m h

-- The two precisions, with the number of bits.
pub data Precision : Type 0 where
  single double : Precision

unfoldable pub width : Precision → ℕ
width single = 32
width double = 64

-- On floats of either width the result has the magnitude of rs1 and the sign that `rm` selects.
pub do_fsgnj_lem :
    (p : Precision) (rm a b : ℕ)
    → rm < 3
    → a < 2 ^ width p
    → b < 2 ^ width p
    → do_fsgnj (width p) a b rm
      ≡ a % 2 ^ (width p - 1)
        + sign_of rm (a / 2 ^ (width p - 1)) (b / 2 ^ (width p - 1)) * 2 ^ (width p - 1)
unfolding do_fsgnj width
do_fsgnj_lem single rm a b h p q =
    join32 (a * 2 % 2 ^ 32 / 2) _ (omega arith)
    ∙ rw (sign_bit rm (a / 2 ^ 31) (b / 2 ^ 31) h (omega arith) (omega arith)) (omega arith)
do_fsgnj_lem double rm a b h p q =
    join64 (a * 2 % 2 ^ 64 / 2) _ (omega arith)
    ∙ rw (sign_bit rm (a / 2 ^ 63) (b / 2 ^ 63) h (omega arith) (omega arith)) (omega arith)
