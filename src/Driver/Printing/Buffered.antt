-- ===== src/Driver/Printing/Buffered.antt =====
-- The buffering of putchar, and printhex, in driver/syscalls.c.
use lowrisc_kc.Base.{
  ℕ, zero, suc, ◌+◌, ◌-◌, ◌*◌, ◌/◌, ◌%◌, ◌^◌, ◌<◌, ◌≡◌, sym, ap, ◌∙◌, ◌||◌, Bool-cases, inl, inr,
  List, [], ◌∷◌, ◌++◌, length, length-append, ltb, ◌==◌, if◌then◌else◌, arith, u8,
}
use lowrisc_kc.Driver.Printing.{Stdout, putchar, hex_digits, printhex}
use lowrisc_kc.Driver.Printing.Numbers.{text_value, digit_of}
use native.Mathlib.Numerals.{unary_clauses}
use mathlib.Core.List.{map, append-nil, append_assoc}

unfoldable pub put_all : List ℕ → Stdout → Stdout
put_all [] s = s
put_all (ch ∷ chs) s = put_all chs (putchar ch s)

-- What was written, the first first, and what waits in the buffer.
abbrev pub written_text : List (List ℕ) → List ℕ
written_text [] = []
written_text (b ∷ bs) = written_text bs ++ b

abbrev pub output : Stdout → List ℕ
output s = written_text s.writes ++ s.buf

putchar-output : (ch : ℕ) (s : Stdout) → output (putchar ch s) ≡ output s ++ u8 ch ∷ []
unfolding putchar
putchar-output ch s = elim (Bool-cases (ch == b'\n' || length (s.buf ++ u8 ch ∷ []) == 64)) [
  | inl e ↦ rw e (
      append-nil (written_text s.writes ++ (s.buf ++ u8 ch ∷ []))
      ∙ sym (append_assoc (written_text s.writes) s.buf (u8 ch ∷ [])))
  | inr e ↦ rw e (sym (append_assoc (written_text s.writes) s.buf (u8 ch ∷ [])))
]

putchar-buf : (ch : ℕ) (s : Stdout) → length s.buf < 64 → length ((putchar ch s).buf) < 64
unfolding putchar
putchar-buf ch s h = elim (Bool-cases (ch == b'\n' || length (s.buf ++ u8 ch ∷ []) == 64)) [
  | inl e ↦ rw e (omega arith)
  | inr e ↦ rw e (ground (arith, length-append s.buf (u8 ch ∷ [])))
]

-- Characters that are put one after another stand in their order in what was written and the
-- buffer, none lost, and the buffer never has more than 63 of its 64 bytes.
pub put_all-output :
    (chs : List ℕ) (s : Stdout)
    → length s.buf < 64
    → (output (put_all chs s) ≡ output s ++ map u8 chs) × (length ((put_all chs s).buf) < 64)
unfolding put_all
put_all-output [] s h = (sym (append-nil (output s)), h)
put_all-output (ch ∷ chs) s h =
    let (o, b) = put_all-output chs (putchar ch s) (putchar-buf ch s h) in
    (
      o
          ∙ ap (λ (t : List ℕ). t ++ map u8 chs) (putchar-output ch s)
          ∙ append_assoc (output s) (u8 ch ∷ []) (map u8 chs),
      b,
    )

hex_char : (d : ℕ) → d < 16 → digit_of (u8 (d + (if ltb d 10 then b'0' else b'a' - 10))) ≡ d
hex_char d h = ground arith

hex_digits-text_value :
    (i x : ℕ) (str : List ℕ)
    → x < 16 ^ i
    → text_value 16 0 (hex_digits i x str) ≡ text_value 16 x str
unfolding hex_digits
hex_digits-text_value zero x str h = ap (λ (n : ℕ). text_value 16 n str) (omega arith)
hex_digits-text_value (suc i) x str h =
    let p : 16 ^ suc i ≡ 16 ^ i * 16 = simp unary_clauses (omega arith) in
    let c = u8 (x % 16 + (if ltb (x % 16) 10 then b'0' else b'a' - 10)) in
    hex_digits-text_value i (x / 16) (c ∷ str) (omega (arith, p))
    ∙ ap (λ (d : ℕ). text_value 16 (x / 16 * 16 + d) str) (hex_char (x % 16) (omega arith))
    ∙ ap (λ (n : ℕ). text_value 16 n str) (omega arith)

hex_digits-length : (i x : ℕ) (str : List ℕ) → length (hex_digits i x str) ≡ i + length str
unfolding hex_digits
hex_digits-length zero x str = omega arith
hex_digits-length (suc i) x str = hex_digits-length i (x / 16) (_ ∷ str) ∙ omega arith

-- printhex prints 16 digits that read back as the word.
pub printhex-text_value :
    (x : ℕ) → x < 2 ^ 64 → (text_value 16 0 (printhex x) ≡ x) × (length (printhex x) ≡ 16)
printhex-text_value x h =
    unfold printhex in (hex_digits-text_value 16 x [] h, hex_digits-length 16 x [])
