-- ===== src/Driver/Printing/Ending.antt =====
-- The formatter of driver/syscalls.c comes to the end of every format.
use lowrisc_kc.Base.{
  ℕ, zero, suc, ◌+◌, ◌-◌, ◌*◌, ◌<◌, ◌≤◌, ◌≡◌, refl, ap, ◌∙◌, Bool, true, false, Bool-cases, inl,
  inr, List, [], ◌∷◌, ◌++◌, Option, some, length, ◌==◌, if◌then◌else◌, arith,
}
use lowrisc_kc.Driver.Printing.{
  Round, reswitched, printed, unrecognized, Flags, no_flags, read_number, conversion, switch,
  escape, vprintfmt, is_digit, printed_then,
}

read_number-le : (n : ℕ) (fmt : List ℕ) → length ((read_number n fmt).1) ≤ length fmt
unfolding read_number
read_number-le n [] = omega arith
read_number-le n (ch ∷ fmt) = elim (Bool-cases (is_digit ch)) [
  | inl e ↦ rw e (omega (arith, read_number-le (n * 10 + (ch - b'0')) fmt))
  | inr e ↦ rw e (omega arith)
]

-- A round leaves at most `n` characters of the format.
abbrev Leaves : ℕ → Round → Type 0
Leaves n (reswitched f a fmt) = length fmt ≤ n
Leaves n (printed t a fmt) = length fmt ≤ n
Leaves n unrecognized = ℕ

if-Leaves :
    (n : ℕ) (b : Bool) (x y : Round) → Leaves n x → Leaves n y → Leaves n (if b then x else y)
if-Leaves n true x y h k = h
if-Leaves n false x y h k = k

module _ (text : ℕ → List ℕ) (vl : ℕ → ℕ) where
  conversion-Leaves :
      (f : Flags) (a ch : ℕ) (fmt : List ℕ) → Leaves (length fmt) (conversion text vl f a ch fmt)
  unfolding conversion
  conversion-Leaves f a ch fmt =
      let le : length fmt ≤ length fmt = omega arith in
      if-Leaves (length fmt) (ch == b'c') _ _ le (
        if-Leaves (length fmt) (ch == b's') _ _ le (
          if-Leaves (length fmt) (ch == b'd') _ _ le (
            if-Leaves (length fmt) (ch == b'u') _ _ le (
              if-Leaves (length fmt) (ch == b'o') _ _ le (
                if-Leaves (length fmt) (ch == b'p') _ _ le (
                  if-Leaves (length fmt) (ch == b'x') _ _ le
                    (if-Leaves (length fmt) (ch == b'%') _ _ le 0)))))))

  switch-Leaves :
      (f : Flags) (a ch : ℕ) (fmt : List ℕ) → Leaves (length fmt) (switch text vl f a (ch ∷ fmt))
  unfolding switch
  switch-Leaves f a ch fmt =
      let le : length fmt ≤ length fmt = omega arith in
      if-Leaves (length fmt) (ch == b'-') _ _ le (
        if-Leaves (length fmt) (ch == b'0') _ _ le (
          if-Leaves (length fmt) (is_digit ch) _ _ (read_number-le (ch - b'0') fmt) (
            if-Leaves (length fmt) (ch == b'*') _ _ le (
              if-Leaves (length fmt) (ch == b'.') _ _ le (
                if-Leaves (length fmt) (ch == b'#') _ _ le
                  (if-Leaves (length fmt) (ch == b'l') _ _ le (conversion-Leaves f a ch fmt)))))))

  -- An escape sequence ends, and leaves no more than stood after its `%`.
  abbrev Ends : ℕ → Option (List ℕ × ℕ × List ℕ) → Type 0
  Ends n o = (r : List ℕ × ℕ × List ℕ) × (o ≡ some r) × (length (r.2) ≤ n)

  escape-Ends :
      (rounds : ℕ) (f : Flags) (a : ℕ) (fmt last_fmt : List ℕ)
      → length fmt < rounds
      → length fmt ≤ length last_fmt
      → Ends (length last_fmt) (escape text vl rounds f a fmt last_fmt)
  unfolding escape
  escape-Ends zero f a fmt last_fmt h k = absurd (omega arith)
  escape-Ends (suc rounds) f a [] last_fmt h k =
      unfold switch in ((b'%' ∷ [], a, last_fmt), refl, omega arith)
  escape-Ends (suc rounds) f a (ch ∷ fmt) last_fmt h k =
      round (switch text vl f a (ch ∷ fmt)) (switch-Leaves f a ch fmt)
        (λ f' a' fmt' l. escape-Ends rounds f' a' fmt' last_fmt (omega arith) (omega arith))
    where
      round :
          (r : Round)
          → Leaves (length fmt) r
          → ((f' : Flags) (a' : ℕ) (fmt' : List ℕ)
              → length fmt' ≤ length fmt
              → Ends (length last_fmt) (escape text vl rounds f' a' fmt' last_fmt))
          → Ends (length last_fmt) (elim r [
            | reswitched f' a' fmt' ↦ escape text vl rounds f' a' fmt' last_fmt
            | printed t a' fmt' ↦ some (t, a', fmt')
            | unrecognized ↦ some (b'%' ∷ [], a, last_fmt)
          ])
      round (reswitched f' a' fmt') l next = next f' a' fmt' l
      round (printed t a' fmt') l next = ((t, a', fmt'), refl, omega arith)
      round unrecognized l next = ((b'%' ∷ [], a, last_fmt), refl, omega arith)

-- A round for each character of the format, and one, is enough: vprintfmt returns, whatever the
-- format and the arguments are.
pub vprintfmt_enough :
    (text : ℕ → List ℕ) (vl : ℕ → ℕ) (rounds a : ℕ) (fmt : List ℕ)
    → length fmt < rounds
    → (t : List ℕ) × (vprintfmt text vl rounds a fmt ≡ some t)
unfolding vprintfmt
vprintfmt_enough text vl zero a fmt h = absurd (omega arith)
vprintfmt_enough text vl (suc rounds) a [] h = ([], refl)
vprintfmt_enough text vl (suc rounds) a (ch ∷ fmt) h = elim (Bool-cases (ch == b'%')) [
  | inl e ↦
      (let ((t, a', fmt'), w, l) =
          escape-Ends text vl (suc (length fmt)) no_flags a fmt fmt (omega arith) (omega arith) in
        let (u, v) = vprintfmt_enough text vl rounds a' fmt' (omega arith) in
        (
          t ++ u,
          rw e (
              ap
                (λ (o : Option (List ℕ × ℕ × List ℕ)).
                  printed_then o (λ a' fmt'. vprintfmt text vl rounds a' fmt'))
                w
              ∙ rw v refl),
        ))
  | inr e ↦
      (let (u, v) = vprintfmt_enough text vl rounds a fmt (omega arith) in (ch ∷ u, rw (e, v) refl))
]
