-- ===== src/Base/Numerals.antt =====
-- The numerals of numbers, as texts of digits with the highest first.
use lowrisc_kc.Base.{
  ℕ, zero, suc, ◌/◌, ◌%◌, ◌*◌, ◌^◌, List, [], ◌∷◌, ◌++◌, get_or, ltb, if◌then◌else◌, ◌+◌, ◌-◌, ◌<◌,
  ◌≡◌, refl, Bool, true, ◌&&◌, ◌==◌, ==_iff, arith,
}
use lowrisc_kc.Base.Int.{ℤ, pos, negsuc}

-- "0123456789abcdef".
abbrev pub digit_chars : List ℕ
digit_chars =
    b'0' ∷ b'1' ∷ b'2' ∷ b'3' ∷ b'4' ∷ b'5' ∷ b'6' ∷ b'7' ∷ b'8' ∷ b'9' ∷ b'a' ∷ b'b' ∷ b'c' ∷ b'd'
    ∷ b'e' ∷ b'f' ∷ []

unfoldable pub char_of : ℕ → ℕ
char_of d = get_or digit_chars d 0

-- The test of every number below a bound.
every_below : ℕ → (ℕ → Bool) → Bool
every_below zero p = true
every_below (suc n) p = p n && every_below n p

every_below_sound : (n : ℕ) (p : ℕ → Bool) (x : ℕ) → every_below n p ≡ true → x < n → p x ≡ true
unfolding every_below
every_below_sound zero p x h lt = absurd (omega arith)
every_below_sound (suc n) p x h lt = ground (arith, every_below_sound n p x)

char_table :
    every_below 16 (λ d. char_of d == (if ltb d 10 then b'0' + d else b'a' + d - 10)) ≡ true
unfolding every_below char_of
char_table = refl

pub char_of_lem : (d : ℕ) → d < 16 → char_of d ≡ (if ltb d 10 then b'0' + d else b'a' + d - 10)
char_of_lem d h = (==_iff (char_of d) (if ltb d 10 then b'0' + d else b'a' + d - 10)).0 (
    every_below_sound 16 (λ d. char_of d == (if ltb d 10 then b'0' + d else b'a' + d - 10)) d
      char_table h)

-- The shortest numeral of a number in a base; it has at most `rounds` digits and one.
unfoldable pub numeral : ℕ → ℕ → ℕ → List ℕ
unfolding char_of
numeral zero base num = char_of num ∷ []
numeral (suc rounds) base num =
    if ltb num base
    then char_of num ∷ []
    else numeral rounds base (num / base) ++ char_of (num % base) ∷ []

-- The last `k` hexadecimal digits of a number, with the zeros in front.
unfoldable pub hex_text : ℕ → ℕ → List ℕ
unfolding char_of
hex_text zero num = []
hex_text (suc k) num = char_of (num / 2 ^ (4 * k) % 16) ∷ hex_text k num

-- The decimal numeral of a word or less, and that of an integer.
unfoldable pub decimal_text : ℕ → List ℕ
unfolding numeral
decimal_text num = numeral 20 10 num

unfoldable pub signed_text : ℤ → List ℕ
unfolding decimal_text
signed_text (pos n) = decimal_text n
signed_text (negsuc n) = b'-' ∷ decimal_text (suc n)
