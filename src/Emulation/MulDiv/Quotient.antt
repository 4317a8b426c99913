-- ===== src/Emulation/MulDiv/Quotient.antt =====
-- Signed division: where C defines it, it is the division of the manual.
use native.Mathlib.Nat.{div-add-mod', mod-lt}
use lowrisc_kc.Base.{
  ℕ, ◌+◌, ◌*◌, ◌/◌, ◌%◌, ◌^◌, ◌≤◌, ◌<◌, ◌≡◌, ◌≢◌, sym, ap₂, ◌∙◌, Bool, true, false, not, arith,
  if◌then◌else◌, ◌⊎◌, inr,
}
use lowrisc_kc.Base.Int.{ℤ, ◌+ℤ◌, ◌*ℤ◌, signed, sub_ℕ}
use lowrisc_kc.Emulation.MulDiv.{
  value, is_negative, magnitude, with_sign, overflows, signed_div, signed_rem,
}

-- A magnitude with a sign.
abbrev pub of_sign : Bool → ℕ → ℤ
of_sign s n = if s then sub_ℕ 0 n else sub_ℕ n 0

divides :
    (s t : Bool) (x y q r : ℕ)
    → q * y + r ≡ x
    → of_sign s x ≡ of_sign (if s then not t else t) q *ℤ of_sign t y +ℤ of_sign s r
unfolding ◌*ℤ◌ ◌+ℤ◌
divides true true x y q r h = ground arith
divides true false x y q r h = ground arith
divides false true x y q r h = ground arith
divides false false x y q r h = ground arith

signed-of_sign : (a : ℕ) → a < 2 ^ 64 → signed 64 a ≡ of_sign (is_negative 64 a) (magnitude 64 a)
unfolding magnitude
signed-of_sign a h = ground arith

signed-with_sign :
    (s : Bool) (n : ℕ)
    → n ≤ 2 ^ 63
    → (s ≡ true) ⊎ (n < 2 ^ 63)
    → signed 64 (with_sign 64 s n) ≡ of_sign s n
unfolding with_sign
signed-with_sign true n h k = ground arith
signed-with_sign false n h k = ground arith

magnitude-with_sign : (s : Bool) (n : ℕ) → n < 2 ^ 63 → magnitude 64 (with_sign 64 s n) ≡ n
unfolding magnitude with_sign
magnitude-with_sign true n h = ground arith
magnitude-with_sign false n h = ground arith

sign-with_sign :
    (s : Bool) (n : ℕ)
    → n < 2 ^ 63
    → (with_sign 64 s n ≡ 0) ⊎ (is_negative 64 (with_sign 64 s n) ≡ s)
unfolding magnitude with_sign
sign-with_sign true n h = ground arith
sign-with_sign false n h = ground arith

div-le : (x y : ℕ) → x / y ≤ x
div-le x y = grind (arith, div-add-mod' x y)

div-lt : (x y m : ℕ) → 2 ≤ y → x ≤ m → 0 < m → x / y < m
div-lt x y m h k p = grind (arith, div-add-mod' x y)

-- `q` and `r` are quotient and remainder of the signed words `a` and `b`, rounded towards zero.
pub record IsDivision (a b q r : ℕ) : Type 0 where
  pub whole : signed 64 a ≡ signed 64 q *ℤ signed 64 b +ℤ signed 64 r
  pub smaller : magnitude 64 r < magnitude 64 b
  pub same_sign : (r ≡ 0) ⊎ (is_negative 64 r ≡ is_negative 64 a)

module _ (a b : ℕ) (ha : a < 2 ^ 64) (hb : b < 2 ^ 64) (nonzero : b ≢ 0)
    (fits : overflows 64 a b ≡ false) where
  abbrev x : ℕ
  x = magnitude 64 a

  abbrev y : ℕ
  y = magnitude 64 b

  abbrev s : Bool
  s = is_negative 64 a

  abbrev t : Bool
  t = is_negative 64 b

  abbrev q : ℕ
  q = with_sign 64 (if s then not t else t) (x / y)

  abbrev r : ℕ
  r = with_sign 64 s (x % y)

  x_bound : x ≤ 2 ^ 63
  unfolding magnitude
  x_bound = ground arith

  y_bound : (0 < y) × (y ≤ 2 ^ 63)
  unfolding magnitude
  y_bound = (ground arith, ground arith)

  quotient_bound : x / y ≤ 2 ^ 63
  quotient_bound = omega (arith, div-le x y, x_bound)

  -- The quotient is 2 ^ 63 only for the least number over 1.
  quotient_sign : ((if s then not t else t) ≡ true) ⊎ (x / y < 2 ^ 63)
  unfolding magnitude overflows
  quotient_sign = ground (arith, div-lt x y (2 ^ 63), div-le x y)

  remainder-lt : x % y < y
  remainder-lt = mod-lt x (y_bound.0)

  small : x % y < 2 ^ 63
  small = omega (arith, remainder-lt, y_bound)

  remainder_magnitude : magnitude 64 r ≡ x % y
  remainder_magnitude = magnitude-with_sign s (x % y) small

  remainder_sign : (r ≡ 0) ⊎ (is_negative 64 r ≡ s)
  remainder_sign = sign-with_sign s (x % y) small

  defined_div : signed_div 64 a b ≡ value q
  unfolding signed_div
  defined_div = ground arith

  defined_rem : signed_rem 64 a b ≡ value r
  unfolding signed_rem
  defined_rem = ground arith

  words :
      of_sign (if s then not t else t) (x / y) *ℤ of_sign t y +ℤ of_sign s (x % y)
      ≡ signed 64 q *ℤ signed 64 b +ℤ signed 64 r
  words =
      ap₂ ◌+ℤ◌
        (ap₂ ◌*ℤ◌
          (sym (signed-with_sign (if s then not t else t) (x / y) quotient_bound quotient_sign))
          (sym (signed-of_sign b hb)))
        (sym (signed-with_sign s (x % y) (omega (arith, small)) (inr small)))

  -- Where the divisor is not 0 and the quotient fits, the code computes both.
  pub signed_div-IsDivision :
      (q : ℕ) × (r : ℕ) × (signed_div 64 a b ≡ value q)
      × (signed_rem 64 a b ≡ value r)
      × IsDivision a b q r
  signed_div-IsDivision = (
    q,
    r,
    defined_div,
    defined_rem,
    record {
      whole = signed-of_sign a ha ∙ divides s t x y (x / y) (x % y) (div-add-mod' x y) ∙ words;
      smaller = rw remainder_magnitude remainder-lt;
      same_sign = remainder_sign;
    },
  )
