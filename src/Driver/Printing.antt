-- ===== src/Driver/Printing.antt =====
-- The formatted output of driver/syscalls.c. A string is the list of its bytes before the zero,
-- `text` has the string at an address, and the arguments are the words `vl 0`, `vl 1`, ... as the
-- calling convention passes them. What is printed is the list of the calls of putch.
pub mod Numbers
pub mod Ending
pub mod Buffered
mod Tests
use lowrisc_kc.Base.{
  ℕ, zero, suc, ◌+◌, ◌-◌, ◌*◌, ◌/◌, ◌%◌, ◌^◌, min, Bool, true, false, ◌&&◌, ◌||◌, not, List, [],
  ◌∷◌, ◌++◌, Option, none, some, length, replicate, take, ltb, leb, ◌==◌, if◌then◌else◌, u8, u32,
  u64,
}
use lowrisc_kc.Base.Int.{ℤ, pos, negsuc, pos_part, signed}
use mathlib.Core.List.{map, reverse}
use mathlib.Core.Option

-- The array `digs`, on the rounds that are left, and the order it is printed in.
unfoldable pub digs : ℕ → ℕ → ℕ → List ℕ
digs zero num base = []
digs (suc rounds) num base =
    let rest = num % base ∷ digs rounds (num / base) base in
    if ltb num base then num % base ∷ [] else rest

unfoldable pub digit_char : ℕ → ℕ
digit_char d = if leb 10 d then d + b'a' - 10 else d + b'0'

-- `sizeof(num)*CHAR_BIT` digits at most.
unfoldable pub printnum : ℕ → ℕ → ℤ → ℕ → List ℕ
printnum num base width padc =
    let ds = digs 64 num base in
    replicate (pos_part width - length ds) padc ++ map digit_char (reverse ds)

unfoldable pub getuint : ℕ → ℕ → ℕ
getuint lflag word = if lflag == 0 then u32 word else u64 word

unfoldable pub getint : ℕ → ℕ → ℤ
getint lflag word = if lflag == 0 then signed 32 (u32 word) else signed 64 (u64 word)

pub record Flags : Type 0 where
  pub padc : ℕ
  pub width : ℤ
  pub precision : ℤ
  pub lflag : ℕ

abbrev pub no_flags : Flags
no_flags = record { padc = b' '; width = negsuc 0; precision = negsuc 0; lflag = 0 }

abbrev pub is_neg : ℤ → Bool
is_neg (pos n) = false
is_neg (negsuc n) = true

-- `process_precision`, with the precision that was read.
unfoldable pub process_precision : ℤ → Flags → Flags
process_precision n f =
    if is_neg f.width
    then record f { width = n; precision = negsuc 0 }
    else record f { precision = n }

abbrev pub is_digit : ℕ → Bool
is_digit ch = leb b'0' ch && leb ch b'9'

-- The loop of the width field, after its first digits.
unfoldable pub read_number : ℕ → List ℕ → ℕ × List ℕ
read_number n [] = (n, [])
read_number n (ch ∷ fmt) =
    let rest = read_number (n * 10 + (ch - b'0')) fmt in if is_digit ch then rest else (n, ch ∷ fmt)

-- `strnlen(p, precision)`: a negative precision is no bound.
unfoldable pub shown_length : ℤ → List ℕ → ℕ
shown_length (pos n) s = min n (length s)
shown_length (negsuc n) s = length s

-- The directive `s`: padding before the string, or blanks after it.
unfoldable pub print_string : Flags → List ℕ → List ℕ
unfolding shown_length
print_string f s =
    let n = shown_length f.precision s in
    if f.padc == b'-'
    then take n s ++ replicate (pos_part f.width - n) b' '
    else replicate (pos_part f.width - n) f.padc ++ take n s

unfoldable pub print_signed : Flags → ℤ → List ℕ
unfolding printnum
print_signed f (pos n) = printnum n 10 f.width f.padc
print_signed f (negsuc n) = b'-' ∷ printnum (suc n) 10 f.width f.padc

-- What one round of the switch does: it goes on with `goto reswitch`, it prints and leaves, or it
-- does not know the character.
pub data Round : Type 0 where
  reswitched : Flags → ℕ → List ℕ → Round
  printed : List ℕ → ℕ → List ℕ → Round
  unrecognized : Round

abbrev null_text : List ℕ
null_text = b'(' ∷ b'n' ∷ b'u' ∷ b'l' ∷ b'l' ∷ b')' ∷ []

-- The rest of the format is printed after an escape sequence.
abbrev pub printed_then :
    Option (List ℕ × ℕ × List ℕ) → (ℕ → List ℕ → Option (List ℕ)) → Option (List ℕ)
printed_then none rest = none
printed_then (some (t, a, fmt)) rest = Option.map (λ u. t ++ u) (rest a fmt)

module _ (text : ℕ → List ℕ) (vl : ℕ → ℕ) where
  unfoldable pub conversion : Flags → ℕ → ℕ → List ℕ → Round
  unfolding print_string print_signed printnum getuint getint
  conversion f a ch fmt =
      if ch == b'c'
      then printed (u8 (vl a) ∷ []) (a + 1) fmt
      else if ch == b's'
      then printed (print_string f (if vl a == 0 then null_text else text (vl a))) (a + 1) fmt
      else if ch == b'd'
      then printed (print_signed f (getint f.lflag (vl a))) (a + 1) fmt
      else if ch == b'u'
      then printed (printnum (getuint f.lflag (vl a)) 10 f.width f.padc) (a + 1) fmt
      else if ch == b'o'
      then printed (printnum (getuint f.lflag (vl a)) 8 f.width f.padc) (a + 1) fmt
      else if ch == b'p'
      then printed (b'0' ∷ b'x' ∷ printnum (getuint 1 (vl a)) 16 f.width f.padc) (a + 1) fmt
      else if ch == b'x'
      then printed (printnum (getuint f.lflag (vl a)) 16 f.width f.padc) (a + 1) fmt
      else if ch == b'%'
      then printed (b'%' ∷ []) a fmt
      else unrecognized

  -- The switch on the first character, the end of the format included.
  unfoldable pub switch : Flags → ℕ → List ℕ → Round
  unfolding conversion process_precision read_number
  switch f a [] = unrecognized
  switch f a (ch ∷ fmt) =
      if ch == b'-'
      then reswitched (record f { padc = b'-' }) a fmt
      else if ch == b'0'
      then reswitched (record f { padc = b'0' }) a fmt
      else if is_digit ch
      then (let (n, rest) = read_number (ch - b'0') fmt in
          reswitched (process_precision (pos n) f) a rest)
      else if ch == b'*'
      then reswitched (process_precision (signed 32 (u32 (vl a))) f) (a + 1) fmt
      else if ch == b'.'
      then reswitched (if is_neg f.width then record f { width = pos 0 } else f) a fmt
      else if ch == b'#'
      then reswitched f a fmt
      else if ch == b'l'
      then reswitched (record f { lflag = f.lflag + 1 }) a fmt
      else conversion f a ch fmt

  -- The escape sequence after a `%` at `last_fmt`: what it prints, and where the format goes on.
  unfoldable pub escape : ℕ → Flags → ℕ → List ℕ → List ℕ → Option (List ℕ × ℕ × List ℕ)
  unfolding switch
  escape zero f a fmt last_fmt = none
  escape (suc rounds) f a fmt last_fmt = elim (switch f a fmt) [
    | reswitched f' a' fmt' ↦ escape rounds f' a' fmt' last_fmt
    | printed t a' fmt' ↦ some (t, a', fmt')
    | unrecognized ↦ some (b'%' ∷ [], a, last_fmt)
  ]

  -- `none` means that the rounds are used up.
  unfoldable pub vprintfmt : ℕ → ℕ → List ℕ → Option (List ℕ)
  unfolding escape
  vprintfmt zero a fmt = none
  vprintfmt (suc rounds) a [] = some []
  vprintfmt (suc rounds) a (ch ∷ fmt) =
      let literal = Option.map (λ t. ch ∷ t) (vprintfmt rounds a fmt) in
      let escaped =
        printed_then (escape (suc (length fmt)) no_flags a fmt fmt)
          (λ a' fmt'. vprintfmt rounds a' fmt') in
      if ch == b'%' then escaped else literal

-- `putchar`: the thread's buffer, and the buffers that were written, the last first.
pub record Stdout : Type 0 where
  pub buf : List ℕ
  pub writes : List (List ℕ)

unfoldable pub putchar : ℕ → Stdout → Stdout
putchar ch s =
    let buf = s.buf ++ u8 ch ∷ [] in
    if ch == b'\n' || length buf == 64
    then record s { buf = []; writes = buf ∷ s.writes }
    else record s { buf = buf }

-- `printhex`: 16 digits, the last first, on the digits that are left.
unfoldable pub hex_digits : ℕ → ℕ → List ℕ → List ℕ
hex_digits zero x str = str
hex_digits (suc i) x str =
    hex_digits i (x / 16) (u8 (x % 16 + (if ltb (x % 16) 10 then b'0' else b'a' - 10)) ∷ str)

unfoldable pub printhex : ℕ → List ℕ
printhex x = hex_digits 16 x []
