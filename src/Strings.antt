-- ===== src/Strings.antt =====
-- bbl/string.c, on memory as a function from addresses to bytes. Addresses do not wrap
-- around: the blocks end below 2^64.
pub mod Filling
pub mod Numbers
pub mod Copying
mod Tests
use lowrisc_kc.Base.{
  ℕ, zero, suc, ◌+◌, ◌-◌, ◌*◌, ◌/◌, ◌%◌, ◌^◌, Bool, ◌&&◌, bit_and, bit_or, leb, ltb, ◌==◌,
  if◌then◌else◌, u8, u64, List, [], ◌∷◌, Option, none, some,
}
use lowrisc_kc.Base.Outcome.{store}
use mathlib.Core.Option

abbrev pub within : ℕ → ℕ → ℕ → Bool
within start len a = leb start a && ltb a (start + len)

-- A store of a word, the low byte first.
unfoldable pub store_word : (ℕ → ℕ) → ℕ → ℕ → ℕ → ℕ
store_word mem d word a = if within d 8 a then word / 2 ^ (8 * (a - d)) % 256 else mem a

-- `word |= word << 8; word |= word << 16; word |= word << 16 << 16;`
unfoldable pub word_of : ℕ → ℕ
word_of byte =
    let two = bit_or byte (u64 (byte * 2 ^ 8)) in
    let four = bit_or two (u64 (two * 2 ^ 16)) in bit_or four (u64 (u64 (four * 2 ^ 16) * 2 ^ 16))

-- The loops, on the stores that are left.
unfoldable pub fill_words : ℕ → ℕ → ℕ → (ℕ → ℕ) → ℕ → ℕ
unfolding store_word
fill_words zero d word mem = mem
fill_words (suc rounds) d word mem = fill_words rounds (d + 8) word (store_word mem d word)

unfoldable pub fill_bytes : ℕ → ℕ → ℕ → (ℕ → ℕ) → ℕ → ℕ
fill_bytes zero d byte mem = mem
fill_bytes (suc rounds) d byte mem = fill_bytes rounds (d + 1) byte (store mem d byte)

unfoldable pub memset : ℕ → ℕ → ℕ → (ℕ → ℕ) → ℕ → ℕ
unfolding fill_words fill_bytes word_of
memset dest byte len mem =
    if bit_and (bit_or dest len) 7 == 0
    then fill_words (len / 8) dest (word_of (u8 byte)) mem
    else fill_bytes len dest (u8 byte) mem

-- `*d++ = *s++` on words: the word at `s`, the low byte first.
unfoldable pub load_bytes : ℕ → ℕ → (ℕ → ℕ) → ℕ
load_bytes zero s mem = 0
load_bytes (suc count) s mem = mem s + 256 * load_bytes count (s + 1) mem

unfoldable pub copy_words : ℕ → ℕ → ℕ → (ℕ → ℕ) → ℕ → ℕ
unfolding store_word load_bytes
copy_words zero d s mem = mem
copy_words (suc rounds) d s mem =
    copy_words rounds (d + 8) (s + 8) (store_word mem d (load_bytes 8 s mem))

unfoldable pub copy_bytes : ℕ → ℕ → ℕ → (ℕ → ℕ) → ℕ → ℕ
copy_bytes zero d s mem = mem
copy_bytes (suc rounds) d s mem = copy_bytes rounds (d + 1) (s + 1) (store mem d (mem s))

unfoldable pub memcpy : ℕ → ℕ → ℕ → (ℕ → ℕ) → ℕ → ℕ
unfolding copy_words copy_bytes
memcpy dest src len mem =
    if bit_and (bit_or (bit_or dest src) len) 7 == 0
    then copy_words (len / 8) dest src mem
    else copy_bytes len dest src mem

-- `while (*p) p++;`: the result is the number of rounds, `none` that they are used up.
unfoldable pub strlen : ℕ → ℕ → (ℕ → ℕ) → Option ℕ
strlen zero p mem = none
strlen (suc rounds) p mem =
    let rest = Option.map suc (strlen rounds (p + 1) mem) in if mem p == 0 then some 0 else rest

-- `while ((*d++ = *src++));`
unfoldable pub strcpy : ℕ → ℕ → ℕ → (ℕ → ℕ) → Option (ℕ → ℕ)
strcpy zero d s mem = none
strcpy (suc rounds) d s mem =
    let rest = strcpy rounds (d + 1) (s + 1) (store mem d (mem s)) in
    if mem s == 0 then some (store mem d (mem s)) else rest

-- A string as the list of its bytes before the zero. `res *= 10; res += *str++ - '0';`
-- and the negation wrap around here, where C leaves the overflow of a long undefined.
unfoldable pub digits_value : ℕ → List ℕ → ℕ
digits_value res [] = res
digits_value res (c ∷ str) = digits_value (u64 (res * 10 + (2 ^ 64 + c - b'0'))) str

unfoldable pub skip_blanks : List ℕ → List ℕ
skip_blanks [] = []
skip_blanks (c ∷ str) = let rest = skip_blanks str in if c == b' ' then rest else c ∷ str

unfoldable pub after_blanks : List ℕ → ℕ
unfolding digits_value
after_blanks [] = 0
after_blanks (c ∷ str) =
    if c == b'-'
    then u64 (2 ^ 64 - digits_value 0 str)
    else if c == b'+'
    then digits_value 0 str
    else digits_value 0 (c ∷ str)

unfoldable pub atol : List ℕ → ℕ
unfolding skip_blanks after_blanks
atol str = after_blanks (skip_blanks str)
