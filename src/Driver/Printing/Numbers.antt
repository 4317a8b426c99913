-- ===== src/Driver/Printing/Numbers.antt =====
-- The digits that `printnum` of driver/syscalls.c prints.
use lowrisc_kc.Base.{
  ℕ, zero, suc, ◌+◌, ◌-◌, ◌*◌, ◌/◌, ◌%◌, ◌^◌, ◌<◌, ◌≤◌, ◌≡◌, refl, sym, ap, ap₂, ◌∙◌, Bool-cases,
  ◌&&◌, true, lt→ltb, inl, inr, List, [], ◌∷◌, ◌++◌, length, length-append, length-map, replicate,
  ltb, leb, ltb→lt, if◌then◌else◌, arith,
}
use lowrisc_kc.Base.Int.{ℤ, negsuc, pos_part}
use lowrisc_kc.Base.Numerals.{char_of, char_of_lem, numeral}
use lowrisc_kc.Driver.Printing.{digs, digit_char, printnum}
use mathlib.Core.List.{map, reverse, reverse-cons, map-append}
use native.Mathlib.Nat.{div-add-mod', mod-eq_of_lt, mod-lt, mul-le-mul_left}
use native.Mathlib.Numerals.{unary_clauses}

-- The number that digits stand for, the lowest first.
abbrev pub low_value : ℕ → List ℕ → ℕ
low_value base [] = 0
low_value base (d ∷ ds) = d + base * low_value base ds

-- What a character stands for as a digit; 99 where it is none.
abbrev pub digit_of : ℕ → ℕ
digit_of c =
    if leb b'0' c && leb c b'9'
    then c - b'0'
    else if leb b'a' c && leb c b'f'
    then c - b'a' + 10
    else 99

-- Every character is a digit of the base.
abbrev pub IsNumeral : ℕ → List ℕ → Type 0
IsNumeral base [] = Unit {0}
IsNumeral base (c ∷ s) = (digit_of c < base) × IsNumeral base s

-- The number that a text of digits stands for, the highest first.

abbrev pub text_value : ℕ → ℕ → List ℕ → ℕ
text_value base acc [] = acc
text_value base acc (c ∷ s) = text_value base (acc * base + digit_of c) s

abbrev AllBelow : ℕ → List ℕ → Type 0
AllBelow base [] = Unit
AllBelow base (d ∷ ds) = (d < base) × AllBelow base ds

small : (num base : ℕ) → num < base → num % base + base * 0 ≡ num
small num base h = let e : num % base ≡ num = mod-eq_of_lt h in omega (arith, e)

whole : (num base : ℕ) → 2 ≤ base → num % base + base * (num / base) ≡ num
whole num base b =
    let e : num / base * base + num % base ≡ num = div-add-mod' num base in grind (arith, e)

quotient_lt : (rounds num base : ℕ) → 2 ≤ base → num < 2 ^ suc rounds → num / base < 2 ^ rounds
quotient_lt rounds num base b h =
    let e : num / base * base + num % base ≡ num = div-add-mod' num base in
    let p : 2 ^ suc rounds ≡ 2 ^ rounds * 2 = simp unary_clauses (omega arith) in
    let m : num / base * 2 ≤ num / base * base = mul-le-mul_left (num / base) b in
    omega (arith, e, p, m)

digs-low_value :
    (rounds num base : ℕ)
    → 2 ≤ base
    → num < 2 ^ rounds
    → low_value base (digs rounds num base) ≡ num
unfolding digs
digs-low_value zero num base b h = omega arith
digs-low_value (suc rounds) num base b h = elim (Bool-cases (ltb num base)) [
  | inl e ↦ rw e (small num base (ltb→lt num base e))
  | inr e ↦ rw e (
      ap (λ (v : ℕ). num % base + base * v)
        (digs-low_value rounds (num / base) base b (quotient_lt rounds num base b h))
      ∙ whole num base b)
]

text_value-append :
    (base acc : ℕ) (s : List ℕ) (c : ℕ)
    → text_value base acc (s ++ c ∷ []) ≡ text_value base acc s * base + digit_of c
text_value-append base acc [] c = refl
text_value-append base acc (d ∷ s) c = text_value-append base (acc * base + digit_of d) s c

digit_of-digit_char : (d : ℕ) → d < 16 → digit_of (digit_char d) ≡ d
unfolding digit_char
digit_of-digit_char d h = ground arith

digs-AllBelow : (rounds num base : ℕ) → 2 ≤ base → AllBelow base (digs rounds num base)
unfolding digs
digs-AllBelow zero num base b = tt
digs-AllBelow (suc rounds) num base b =
    let low : num % base < base = mod-lt num (omega arith) in
    elim (Bool-cases (ltb num base)) [
      | inl e ↦ rw e (low, tt)
      | inr e ↦ rw e (low, digs-AllBelow rounds (num / base) base b)
    ]

text_value-digits :
    (base : ℕ) (ds : List ℕ)
    → base ≤ 16
    → AllBelow base ds
    → text_value base 0 (map digit_char (reverse ds)) ≡ low_value base ds
text_value-digits base [] h k = refl
text_value-digits base (d ∷ ds) h k =
    rw (reverse-cons, map-append)
      (text_value-append base 0 (map digit_char (reverse ds)) (digit_char d)
        ∙ rw (text_value-digits base ds h (k.1), digit_of-digit_char d (omega (arith, k.0)))
            (grind arith))

IsNumeral-append :
    (base : ℕ) (s : List ℕ) (c : ℕ)
    → IsNumeral base s
    → digit_of c < base
    → IsNumeral base (s ++ c ∷ [])
IsNumeral-append base [] c h k = (k, tt)
IsNumeral-append base (d ∷ s) c h k = (h.0, IsNumeral-append base s c (h.1) k)

digits-IsNumeral :
    (base : ℕ) (ds : List ℕ)
    → base ≤ 16
    → AllBelow base ds
    → IsNumeral base (map digit_char (reverse ds))
digits-IsNumeral base [] h k = tt
digits-IsNumeral base (d ∷ ds) h k =
    rw (reverse-cons, map-append)
      (IsNumeral-append base (map digit_char (reverse ds)) (digit_char d)
        (digits-IsNumeral base ds h (k.1)) (rw (digit_of-digit_char d (omega (arith, k.0))) (k.0)))

digit_char-char_of : (d : ℕ) → d < 16 → digit_char d ≡ char_of d
unfolding digit_char
digit_char-char_of d h = rw (char_of_lem d h) (ground arith)

-- The digits in their order are the shortest numeral.
pub digs-numeral :
    (rounds num base : ℕ)
    → 2 ≤ base
    → base ≤ 16
    → num < 2 ^ suc rounds
    → map digit_char (reverse (digs (suc rounds) num base)) ≡ numeral rounds base num
unfolding digs numeral
digs-numeral zero num base b c h =
    let lt : ltb num base ≡ true = lt→ltb num base (omega arith) in
    let e : num % base ≡ num = mod-eq_of_lt (omega arith) in
    rw (digs, lt, e) (ap (λ (x : ℕ). x ∷ []) (digit_char-char_of num (omega arith)))
digs-numeral (suc rounds) num base b c h = elim (Bool-cases (ltb num base)) [
  | inl lt ↦
      let e : num % base ≡ num = mod-eq_of_lt (ltb→lt num base lt) in
      rw (digs, lt, e)
        (ap (λ (x : ℕ). x ∷ []) (digit_char-char_of num (omega (arith, ltb→lt num base lt))))
  | inr ge ↦
      let m : num % base < base = mod-lt num (omega arith) in
      rw (digs, ge, reverse-cons, map-append)
        (ap₂ (λ (s : List ℕ) (x : ℕ). s ++ x ∷ [])
          (digs-numeral rounds (num / base) base b c (quotient_lt (suc rounds) num base b h))
          (digit_char-char_of (num % base) (omega (arith, m))))
]

length-reverse : (ds : List ℕ) → length (reverse ds) ≡ length ds
length-reverse [] = refl
length-reverse (d ∷ ds) =
    rw reverse-cons (length-append (reverse ds) (d ∷ []) ∙ omega (arith, length-reverse ds))

-- With no width it prints the numeral.
pub printnum-numeral :
    (num base padc : ℕ)
    → 2 ≤ base
    → base ≤ 16
    → num < 2 ^ 64
    → printnum num base (negsuc 0) padc ≡ numeral 63 base num
unfolding printnum
printnum-numeral num base padc b c h =
    let none_left : 0 - length (digs 64 num base) ≡ 0 = omega arith in
    rw none_left (digs-numeral 63 num base b c h)

-- printnum prints digits of its base, from 2 to 16, that read back as the number, and before them as
-- much padding as they are shorter than the width.
pub printnum-text_value :
    (num base : ℕ) (width : ℤ) (padc : ℕ)
    → 2 ≤ base
    → base ≤ 16
    → num < 2 ^ 64
    → (s : List ℕ) × (printnum num base width padc
        ≡ replicate (pos_part width - length s) padc ++ s)
      × IsNumeral base s
      × (text_value base 0 s ≡ num)
unfolding printnum
printnum-text_value num base width padc b c h =
    let ds = digs 64 num base in
    let size : length (map digit_char (reverse ds)) ≡ length ds =
      length-map (reverse ds) digit_char ∙ length-reverse ds in
    (
      map digit_char (reverse ds),
      ap (λ (n : ℕ). replicate (pos_part width - n) padc ++ map digit_char (reverse ds)) (sym size),
      digits-IsNumeral base ds c (digs-AllBelow 64 num base b),
      text_value-digits base ds c (digs-AllBelow 64 num base b) ∙ digs-low_value 64 num base b h,
    )
