-- ===== src/Console/Digits.antt =====
-- The digits that the loops of `vsnprintf` store, against the numerals of numbers.
use lowrisc_kc.Base.{
  ℕ, zero, suc, ◌+◌, ◌-◌, ◌*◌, ◌/◌, ◌%◌, ◌^◌, ◌<◌, ◌≤◌, ◌≡◌, refl, ap, ap₂, ◌∙◌, Bool, true, false,
  Bool-cases, inl, inr, List, [], ◌∷◌, ◌++◌, ltb, ◌==◌, if◌then◌else◌, u32, u64, arith,
}
use native.Mathlib.Numerals.{unary_clauses}
use lowrisc_kc.Base.Int.{neg_part, signed}
use lowrisc_kc.Base.Numerals.{char_of, char_of_lem, numeral, hex_text, decimal_text, signed_text}
use lowrisc_kc.Console.{digit, count_digits, max_digits, is_negative, magnitude, word_arg}
use lowrisc_kc.Console.Text.{integer, all_digits}

-- The last `k` digits of a number, and its hexadecimal ones.
unfoldable pub decimal : ℕ → ℕ → List ℕ
decimal zero num = []
decimal (suc k) num = decimal k (num / 10) ++ (b'0' + num % 10) ∷ []

unfoldable pub hexadecimal : ℕ → ℕ → List ℕ
unfolding digit
hexadecimal zero num = []
hexadecimal (suc k) num = digit (num / 2 ^ (4 * k) % 16) ∷ hexadecimal k num

unfoldable pub unsigned_decimal : ℕ → List ℕ
unfolding decimal
unsigned_decimal num = decimal (count_digits max_digits num) num

unfoldable pub signed_decimal : ℕ → List ℕ
unfolding unsigned_decimal is_negative magnitude
signed_decimal num =
    if is_negative num
    then b'-' ∷ unsigned_decimal (magnitude num)
    else unsigned_decimal (magnitude num)

digit_lem : (d : ℕ) → d < 16 → digit d ≡ char_of d
unfolding digit
digit_lem d h = rw (char_of_lem d h) refl

hexadecimal_lem : (k num : ℕ) → hexadecimal k num ≡ hex_text k num
hexadecimal_lem zero num = unfold hexadecimal hex_text in refl
hexadecimal_lem (suc k) num =
    let now = digit_lem (num / 2 ^ (4 * k) % 16) (omega arith) in
    let rest = hexadecimal_lem k num in cons now rest
  where
    cons :
        digit (num / 2 ^ (4 * k) % 16) ≡ char_of (num / 2 ^ (4 * k) % 16)
        → hexadecimal k num ≡ hex_text k num
        → hexadecimal (suc k) num ≡ hex_text (suc k) num
    cons e f = unfold hexadecimal hex_text in ap₂ ◌∷◌ e f

-- A digit of an int is the same with its sign extended.
nibble : (k x : ℕ) → k < 8 → (2 ^ 64 - 2 ^ 32 + x) / 2 ^ (4 * k) % 16 ≡ x / 2 ^ (4 * k) % 16
nibble zero x h = omega arith
nibble (suc zero) x h = omega arith
nibble (suc (suc zero)) x h = omega arith
nibble (suc (suc (suc zero))) x h = omega arith
nibble (suc (suc (suc (suc zero)))) x h = omega arith
nibble (suc (suc (suc (suc (suc zero))))) x h = omega arith
nibble (suc (suc (suc (suc (suc (suc zero)))))) x h = omega arith
nibble (suc (suc (suc (suc (suc (suc (suc zero))))))) x h = omega arith
nibble (suc (suc (suc (suc (suc (suc (suc (suc k)))))))) x h = absurd (omega arith)

hex_text_low : (k x : ℕ) → k ≤ 8 → hex_text k (2 ^ 64 - 2 ^ 32 + x) ≡ hex_text k x
unfolding hex_text
hex_text_low zero x h = refl
hex_text_low (suc k) x h =
    ap₂ ◌∷◌ (ap char_of (nibble k x (omega arith))) (hex_text_low k x (omega arith))

pub all_digits_lem :
    (l : Bool) (w : ℕ) → hexadecimal (if l then 16 else 8) (word_arg l w) ≡ all_digits l w
unfolding all_digits word_arg
all_digits_lem true w = hexadecimal_lem 16 (u64 w)
all_digits_lem false w = elim (Bool-cases (ltb (u32 w) (2 ^ 31))) [
  | inl e ↦ rw e (hexadecimal_lem 8 (u32 w))
  | inr e ↦
      rw e (hexadecimal_lem 8 (2 ^ 64 - 2 ^ 32 + u32 w) ∙ hex_text_low 8 (u32 w) (omega arith))
]

pub div10-lt : (num k : ℕ) → num < 10 ^ suc k → num / 10 < 10 ^ k
div10-lt num k h =
    let p : 10 ^ suc k ≡ 10 ^ k * 10 = simp unary_clauses (omega arith) in omega (arith, p)

last_digit : (num : ℕ) → b'0' + num % 10 ≡ char_of (num % 10)
last_digit num = rw (char_of_lem (num % 10) (omega arith)) (ground arith)

-- The digits that are counted are those of the shortest numeral.
decimal-numeral :
    (rounds num : ℕ)
    → num < 10 ^ suc rounds
    → decimal (count_digits rounds num) num ≡ numeral rounds 10 num
unfolding decimal count_digits numeral
decimal-numeral zero num h =
    let e : num % 10 ≡ num = omega arith in ap (λ (c : ℕ). c ∷ []) (last_digit num ∙ ap char_of e)
decimal-numeral (suc rounds) num h = elim (Bool-cases (ltb num 10)) [
  | inl e ↦
      let stop : (num / 10 == 0) ≡ true = ground arith in
      let small : num % 10 ≡ num = ground arith in
      rw (count_digits, numeral, stop, e)
        (ap (λ (c : ℕ). c ∷ []) (last_digit num ∙ ap char_of small))
  | inr e ↦
      let more : (num / 10 == 0) ≡ false = ground arith in
      rw (count_digits, numeral, more, e)
        (ap₂ (λ (s : List ℕ) (c : ℕ). s ++ c ∷ [])
          (decimal-numeral rounds (num / 10) (div10-lt num (suc rounds) h)) (last_digit num))
]

pub unsigned_decimal_lem : (num : ℕ) → num < 2 ^ 64 → unsigned_decimal num ≡ decimal_text num
unfolding unsigned_decimal decimal_text
unsigned_decimal_lem num h = decimal-numeral 20 num (omega arith)

pub signed_lem : (num : ℕ) → num < 2 ^ 64 → signed_decimal num ≡ signed_text (signed 64 num)
signed_lem num h = elim (Bool-cases (ltb num (2 ^ 63))) [
  | inl e ↦
      let positive : is_negative num ≡ false = unfold is_negative in ground arith in
      unfold signed_decimal signed_text in rw (positive, e) (unsigned_decimal_lem num h)
  | inr e ↦
      let negative : is_negative num ≡ true = unfold is_negative in ground arith in
      let size : suc (2 ^ 64 - num - 1) ≡ 2 ^ 64 - num = ground arith in
      unfold signed_decimal signed_text in
      rw (negative, e, size)
        (ap (λ (t : List ℕ). b'-' ∷ t) (unsigned_decimal_lem (2 ^ 64 - num) (ground arith)))
]

signed-word_arg : (l : Bool) (w : ℕ) → signed 64 (word_arg l w) ≡ integer l w
unfolding integer word_arg
signed-word_arg true w = refl
signed-word_arg false w = ground arith

pub word_arg-lt : (l : Bool) (w : ℕ) → word_arg l w < 2 ^ 64
unfolding word_arg
word_arg-lt true w = omega arith
word_arg-lt false w = ground arith

pub signed_decimal_lem :
    (l : Bool) (w : ℕ) → signed_decimal (word_arg l w) ≡ signed_text (integer l w)
signed_decimal_lem l w =
    signed_lem (word_arg l w) (word_arg-lt l w) ∙ ap signed_text (signed-word_arg l w)

pub not_least :
    (l : Bool) (w : ℕ) → neg_part (integer l w) < 2 ^ 63 → (word_arg l w == 2 ^ 63) ≡ false
unfolding integer word_arg
not_least true w h = ground arith
not_least false w h = ground arith
