-- ===== src/Strings/Numbers.antt =====
-- `atol` of bbl/string.c reads what `%ld` of bbl/console.c prints.
use native.Mathlib.Numerals.{unary_clauses}
use lowrisc_kc.Base.{
  ℕ, zero, suc, ◌+◌, ◌-◌, ◌*◌, ◌/◌, ◌%◌, ◌^◌, ◌<◌, ◌≤◌, ◌≡◌, refl, sym, ap, ◌∙◌, ◌≢◌, true,
  Bool-cases, inl, inr, List, [], ◌∷◌, ◌++◌, leb→le, ◌==◌, arith, u64, ne_test, ==_iff,
}
use lowrisc_kc.Console.{count_digits, max_digits, is_negative}
use lowrisc_kc.Base.Int.{signed}
use lowrisc_kc.Base.Numerals.{signed_text}
use lowrisc_kc.Console.Digits.{decimal, unsigned_decimal, signed_decimal, div10-lt, signed_lem}
use lowrisc_kc.Strings.{digits_value, atol}

digits_value-append :
    (xs ys : List ℕ) (res : ℕ) → digits_value res (xs ++ ys) ≡ digits_value (digits_value res xs) ys
unfolding digits_value
digits_value-append [] ys res = refl
digits_value-append (x ∷ xs) ys res =
    digits_value-append xs ys (u64 (res * 10 + (2 ^ 64 + x - b'0')))

lt_pow : (num k : ℕ) → num / 10 < 10 ^ k → num < 10 ^ suc k
lt_pow num k h =
    let p : 10 ^ suc k ≡ 10 ^ k * 10 = simp unary_clauses (omega arith) in omega (arith, p)

-- Enough digits give back the number.
digits_value-decimal :
    (k num : ℕ) → num < 10 ^ k → num < 2 ^ 64 → digits_value 0 (decimal k num) ≡ num
unfolding decimal digits_value
digits_value-decimal zero num h small = omega arith
digits_value-decimal (suc k) num h small =
    digits_value-append (decimal k (num / 10)) ((b'0' + num % 10) ∷ []) 0
    ∙ ap (λ (r : ℕ). u64 (r * 10 + (2 ^ 64 + (b'0' + num % 10) - b'0')))
        (digits_value-decimal k (num / 10) (div10-lt num k h) (omega arith))
    ∙ omega arith

-- The digits that are counted are enough.
lt-count_digits : (rounds num : ℕ) → num < 10 ^ suc rounds → num < 10 ^ count_digits rounds num
unfolding count_digits
lt-count_digits zero num h = h
lt-count_digits (suc rounds) num h = elim (Bool-cases (num / 10 == 0)) [
  | inl e ↦ rw e (omega (arith, (==_iff (num / 10) 0).0 e))
  | inr e ↦ rw e (
      lt_pow num (count_digits rounds (num / 10))
        (lt-count_digits rounds (num / 10) (div10-lt num (suc rounds) h)))
]

digits_value-unsigned : (num : ℕ) → num < 2 ^ 64 → digits_value 0 (unsigned_decimal num) ≡ num
unfolding unsigned_decimal
digits_value-unsigned num h =
    digits_value-decimal (count_digits max_digits num) num
      (lt-count_digits max_digits num (omega arith)) h

abbrev AllDigits : List ℕ → Type 0
AllDigits [] = Unit
AllDigits (c ∷ s) = (b'0' ≤ c) × AllDigits s

AllDigits-append : (s : List ℕ) (c : ℕ) → AllDigits s → b'0' ≤ c → AllDigits (s ++ c ∷ [])
AllDigits-append [] c h k = (k, tt)
AllDigits-append (d ∷ s) c h k = (h.0, AllDigits-append s c (h.1) k)

decimal-AllDigits : (k num : ℕ) → AllDigits (decimal k num)
unfolding decimal
decimal-AllDigits zero num = tt
decimal-AllDigits (suc k) num =
    AllDigits-append (decimal k (num / 10)) (b'0' + num % 10) (decimal-AllDigits k (num / 10))
      (omega arith)

unsigned-AllDigits : (num : ℕ) → AllDigits (unsigned_decimal num)
unfolding unsigned_decimal
unsigned-AllDigits num = decimal-AllDigits (count_digits max_digits num) num

-- Digits have neither blanks nor a sign before them.
atol_digits : (s : List ℕ) → AllDigits s → atol s ≡ digits_value 0 s
unfolding atol digits_value
atol_digits [] h = refl
atol_digits (c ∷ s) h = rw (ne_test c b' ' (λ e. absurd (omega (arith, e, h.0)))) (
    rw
      (
        ne_test c b'-' (λ e. absurd (omega (arith, e, h.0))),
        ne_test c b'+' (λ e. absurd (omega (arith, e, h.0))),
      )
      refl)

atol-signed_decimal : (num : ℕ) → num < 2 ^ 64 → atol (signed_decimal num) ≡ num
unfolding signed_decimal
atol-signed_decimal num h = elim (Bool-cases (is_negative num)) [
  | inl e ↦ rw e (negative e)
  | inr e ↦
      rw e
        (atol_digits (unsigned_decimal num) (unsigned-AllDigits num) ∙ digits_value-unsigned num h)
]
  where
    negative : is_negative num ≡ true → atol (b'-' ∷ unsigned_decimal (2 ^ 64 - num)) ≡ num
    negative e =
        unfold atol in
        rw (digits_value-unsigned (2 ^ 64 - num) (omega (arith, leb→le (2 ^ 63) num e)))
          (omega arith)

-- atol reads back the numeral of every long but the least, at which its negation overflows.
pub atol-signed_text :
    (num : ℕ) → num < 2 ^ 64 → num ≢ 2 ^ 63 → atol (signed_text (signed 64 num)) ≡ num
atol-signed_text num h least = ap atol (sym (signed_lem num h)) ∙ atol-signed_decimal num h
