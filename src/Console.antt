-- ===== src/Console.antt =====
-- The formatted output of bbl/console.c. A string is the list of its bytes before the zero, memory
-- is read through `text`, which has the string at an address, and the arguments are the words
-- `vl 0`, `vl 1`, ... as the calling convention passes them. The text is shorter than 2^31 bytes.
pub mod Text
pub mod Digits
pub mod Buffer
pub mod Fitting
pub mod Whole
pub mod Line
pub mod Bounds
pub mod Overrun
mod Tests
use lowrisc_kc.Base.{
  ℕ, zero, suc, ◌+◌, ◌-◌, ◌*◌, ◌/◌, ◌%◌, ◌^◌, Bool, true, false, List, [], ◌∷◌, length, ltb, leb,
  ◌==◌, if◌then◌else◌, u8, u32, u64,
}
use lowrisc_kc.Base.Outcome.{store}

-- The variables of the loop; `arg` counts the arguments that are taken.
pub record Printer : Type 0 where
  pub out : ℕ → ℕ
  pub pos : ℕ
  pub arg : ℕ
  pub format : Bool
  pub longarg : Bool

-- `bad_format` is the panic, `endless` a loop that comes back to where it was, `undefined` what C
-- leaves undefined: the negation of the least number, and a store before the buffer.
pub data Printed : Type 0 where
  done : Printer → Printed
  bad_format : Printed
  endless : Printed
  undefined : Printed

infixl 5 ◌>>=◌
abbrev pub ◌>>=◌ : Printed → (Printer → Printed) → Printed
done p >>= f = f p
bad_format >>= f = bad_format
endless >>= f = endless
undefined >>= f = undefined

unfoldable pub digit : ℕ → ℕ
digit d = if ltb d 10 then b'0' + d else b'a' + d - 10

abbrev pub started : (ℕ → ℕ) → Printer
started out = record { out = out; pos = 0; arg = 0; format = false; longarg = false }

-- The number of rounds of `for (long nn = num; nn /= 10; digits++)`, and one.
unfoldable pub count_digits : ℕ → ℕ → ℕ
count_digits zero nn = 1
count_digits (suc rounds) nn =
    let rest = suc (count_digits rounds (nn / 10)) in if nn / 10 == 0 then 1 else rest

abbrev pub max_digits : ℕ
max_digits = 20

-- The sign of `long num`, and its magnitude; -num is undefined at -2^63, see print_decimal.
unfoldable pub is_negative : ℕ → Bool
is_negative num = leb (2 ^ 63) num

unfoldable pub magnitude : ℕ → ℕ
unfolding is_negative
magnitude num = if is_negative num then 2 ^ 64 - num else num

-- `longarg ? va_arg(vl, long) : va_arg(vl, int)`, as a word.
unfoldable pub word_arg : Bool → ℕ → ℕ
word_arg longarg word =
    if longarg
    then u64 word
    else if ltb (u32 word) (2 ^ 31)
    then u32 word
    else 2 ^ 64 - 2 ^ 32 + u32 word

-- `longarg = false; format = false;`
unfoldable pub finish : Printer → Printer
finish p = record p { longarg = false; format = false }

unfoldable pub finished : Printed → Printed
unfolding finish
finished (done p) = done (finish p)
finished bad_format = bad_format
finished endless = endless
finished undefined = undefined

module _ (n : ℕ) where
  -- `if (++pos < n) out[pos-1] = c;`
  unfoldable pub put_at : ℕ → ℕ → (ℕ → ℕ) → ℕ → ℕ
  put_at c pos out = if ltb (pos + 1) n then store out pos c else out

  unfoldable pub put : ℕ → Printer → Printer
  unfolding put_at
  put c p = record p { out = put_at c p.pos p.out; pos = p.pos + 1 }

  -- The loop of `x`, on the digits that are left.
  unfoldable pub hex_loop : ℕ → ℕ → Printer → Printer
  unfolding put digit
  hex_loop zero num p = p
  hex_loop (suc i) num p = hex_loop i num (put (digit (num / 2 ^ (4 * i) % 16)) p)

  -- The loop of `d`, on the digits that are left: the last digit is stored first.
  unfoldable pub store_digits : ℕ → ℕ → ℕ → (ℕ → ℕ) → ℕ → ℕ
  store_digits pos zero num out = out
  store_digits pos (suc i) num out =
      store_digits pos i (num / 10)
        (if ltb (pos + i + 1) n then store out (pos + i) (b'0' + num % 10) else out)

  unfoldable pub store_decimal : ℕ → Printer → Printer
  unfolding store_digits
  store_decimal num p = record p {
    out = store_digits p.pos (count_digits max_digits num) num p.out;
    pos = p.pos + count_digits max_digits num;
  }

  -- `while(*s2) if (++pos < n) out[pos-1] = *s2++;` on the rounds that are left. `pos` is a size_t;
  -- where it has wrapped around to 0, the store is before the buffer.
  unfoldable pub string_loop : ℕ → List ℕ → Printer → Printed
  string_loop zero [] p = done p
  string_loop zero (c ∷ cs) p = endless
  string_loop (suc rounds) [] p = done p
  string_loop (suc rounds) (c ∷ cs) p =
      let next = u64 (p.pos + 1) in
      let stored =
        string_loop rounds cs (record p { out = store p.out (next - 1) c; pos = next }) in
      let again = string_loop rounds (c ∷ cs) (record p { pos = next }) in
      if ltb next n then (if next == 0 then undefined else stored) else again

  -- A round for each character, and one for each value of `pos`: after those the loop is where it
  -- was.
  unfoldable pub put_string : List ℕ → Printer → Printed
  unfolding string_loop
  put_string cs p = string_loop (length cs + 2 ^ 64) cs p

  -- `if (pos < n) out[pos] = 0; else if (n) out[n-1] = 0;`
  unfoldable pub terminated : Printer → Printer
  terminated p =
      if ltb p.pos n
      then record p { out = store p.out p.pos 0 }
      else if n == 0
      then p
      else record p { out = store p.out (n - 1) 0 }

module _ (text : ℕ → List ℕ) (vl : ℕ → ℕ) (n : ℕ) where
  unfoldable pub print_hex : Printer → Printer
  unfolding hex_loop word_arg finish
  print_hex p = finish (
      hex_loop n (if p.longarg then 16 else 8) (word_arg p.longarg (vl p.arg))
        (record p { arg = p.arg + 1 }))

  unfoldable pub print_decimal : Printer → Printed
  unfolding store_decimal word_arg is_negative magnitude put finish
  print_decimal p =
      let num = word_arg p.longarg (vl p.arg) in
      let taken = record p { arg = p.arg + 1 } in
      if num == 2 ^ 63
      then undefined
      else done (
          finish
            (store_decimal n (magnitude num) (if is_negative num then put n b'-' taken else taken)))

  -- The argument is taken only where there is room for it.
  unfoldable pub print_char : Printer → Printer
  unfolding put finish
  print_char p =
      finish
        (record (put n (u8 (vl p.arg)) p) { arg = if ltb (p.pos + 1) n then p.arg + 1 else p.arg })

  unfoldable pub directive : ℕ → Printer → Printed
  unfolding print_hex print_decimal finished print_char
  directive c p =
      if c == b'l'
      then done (record p { longarg = true })
      else if c == b'p'
      then done (print_hex (put n b'x' (put n b'0' (record p { longarg = true }))))
      else if c == b'x'
      then done (print_hex p)
      else if c == b'd'
      then print_decimal p
      else if c == b's'
      then finished (put_string n (text (vl p.arg)) (record p { arg = p.arg + 1 }))
      else if c == b'c'
      then done (print_char p)
      else bad_format

  unfoldable pub step : ℕ → Printer → Printed
  unfolding directive put
  step c p =
      if p.format
      then directive c p
      else if c == b'%'
      then done (record p { format = true })
      else done (put n c p)

  unfoldable pub run : List ℕ → Printer → Printed
  unfolding step
  run [] p = done p
  run (c ∷ s) p = step c p >>= λ q. run s q

  -- The result of the call is `pos`.
  unfoldable pub vsnprintf : List ℕ → (ℕ → ℕ) → Printed
  unfolding run terminated
  vsnprintf s out = run s (started out) >>= λ p. done (terminated n p)

-- The bytes of a buffer from `at` on.
unfoldable pub bytes : ℕ → ℕ → (ℕ → ℕ) → List ℕ
bytes zero at out = []
bytes (suc count) at out = out at ∷ bytes count (at + 1) out

-- What `uart_send_buf` is given, or why it is not called.
pub data Sent : Type 0 where
  sent : List ℕ → Sent
  panics : Sent
  hangs : Sent
  anything : Sent

unfoldable pub delivered : Printed → Sent
unfolding bytes
delivered (done p) = sent (bytes (if ltb p.pos 256 then p.pos else 256) 0 p.out)
delivered bad_format = panics
delivered endless = hangs
delivered undefined = anything

-- `char out[256]`, with what it held before.
unfoldable pub vprintk : (ℕ → List ℕ) → (ℕ → ℕ) → List ℕ → (ℕ → ℕ) → Sent
unfolding delivered
vprintk text vl s out = delivered (vsnprintf text vl 256 s out)
