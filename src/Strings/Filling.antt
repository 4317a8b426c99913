-- ===== src/Strings/Filling.antt =====
-- Both paths of `memset`, bbl/string.c, fill the block with the byte and nothing else.
use lowrisc_kc.Base.{
  ℕ, zero, suc, ◌+◌, ◌-◌, ◌*◌, ◌/◌, ◌%◌, ◌^◌, ◌<◌, ◌≡◌, refl, sym, ap, ap₂, ◌∙◌, true, Bool-cases,
  inl, inr, not, ◌||◌, bit_and, bit_or, ltb, ◌==◌, ==_iff, every, every_lem, if◌then◌else◌, u8,
  arith,
}
use lowrisc_kc.Base.Bits.{bit_and_mask, bit_or_split}
use lowrisc_kc.Base.Outcome.{store}
use lowrisc_kc.Strings.{within, store_word, word_of, fill_words, fill_bytes, memset}

fill_bytes_lem :
    (rounds d byte : ℕ) (mem : ℕ → ℕ) (a : ℕ)
    → fill_bytes rounds d byte mem a ≡ (if within d rounds a then byte else mem a)
unfolding fill_bytes
fill_bytes_lem zero d byte mem a = ground arith
fill_bytes_lem (suc rounds) d byte mem a =
    fill_bytes_lem rounds (d + 1) byte (store mem d byte) a ∙ ground arith

-- A byte in every place of a word.
word_table : every (λ byte. word_of byte == byte * 0x0101010101010101) 256 ≡ true
unfolding word_of every
word_table = refl

byte_of_word : (byte i : ℕ) → byte < 256 → i < 8 → word_of byte / 2 ^ (8 * i) % 256 ≡ byte
byte_of_word byte i h k =
    ap (λ (w : ℕ). w / 2 ^ (8 * i) % 256)
      ((==_iff (word_of byte) (byte * 0x0101010101010101)).0
        (every_lem (λ b. word_of b == b * 0x0101010101010101) 256 byte h word_table))
    ∙ place i k
  where
    place : (i : ℕ) → i < 8 → byte * 0x0101010101010101 / 2 ^ (8 * i) % 256 ≡ byte
    place zero k = omega arith
    place (suc zero) k = omega arith
    place (suc (suc zero)) k = omega arith
    place (suc (suc (suc zero))) k = omega arith
    place (suc (suc (suc (suc zero)))) k = omega arith
    place (suc (suc (suc (suc (suc zero))))) k = omega arith
    place (suc (suc (suc (suc (suc (suc zero)))))) k = omega arith
    place (suc (suc (suc (suc (suc (suc (suc zero))))))) k = omega arith
    place (suc (suc (suc (suc (suc (suc (suc (suc n)))))))) k = absurd (omega arith)

store_word_lem :
    (mem : ℕ → ℕ) (d byte a : ℕ)
    → byte < 256
    → store_word mem d (word_of byte) a ≡ (if within d 8 a then byte else mem a)
unfolding store_word
store_word_lem mem d byte a h = elim (Bool-cases (within d 8 a)) [
  | inl e ↦ rw (store_word, e) (byte_of_word byte (a - d) h (ground arith))
  | inr e ↦ rw (store_word, e) refl
]

fill_words_lem :
    (rounds d byte : ℕ) (mem : ℕ → ℕ) (a : ℕ)
    → byte < 256
    → fill_words rounds d (word_of byte) mem a ≡ (if within d (rounds * 8) a then byte else mem a)
unfolding fill_words
fill_words_lem zero d byte mem a h = ground arith
fill_words_lem (suc rounds) d byte mem a h =
    fill_words_lem rounds (d + 8) byte (store_word mem d (word_of byte)) a h
    ∙ ap (λ (x : ℕ). if within (d + 8) (rounds * 8) a then byte else x)
        (store_word_lem mem d byte a h)
    ∙ ground arith

zero_table : every (λ n. not (bit_or (n / 8) (n % 8) == 0) || n % 8 == 0) 64 ≡ true
unfolding every
zero_table = refl

small_table : every (λ n. ltb (bit_or (n / 8) (n % 8)) 8) 64 ≡ true
unfolding every
small_table = refl

low_bits_small : (x y : ℕ) → x < 8 → y < 8 → bit_or x y < 8
low_bits_small x y h k =
    let n : x * 8 + y < 64 = omega arith in
    let p : (x * 8 + y) / 8 ≡ x = omega arith in
    let q : (x * 8 + y) % 8 ≡ y = omega arith in
    let fact = every_lem (λ n. ltb (bit_or (n / 8) (n % 8)) 8) 64 (x * 8 + y) n small_table in
    let at : ltb (bit_or x y) 8 ≡ true = sym (ap₂ (λ (u v : ℕ). ltb (bit_or u v) 8) p q) ∙ fact in
    ground (arith, at)

low_bits_zero : (x y : ℕ) → x < 8 → y < 8 → bit_or x y ≡ 0 → y ≡ 0
low_bits_zero x y h k e =
    let n : x * 8 + y < 64 = omega arith in
    let p : (x * 8 + y) / 8 ≡ x = omega arith in
    let q : (x * 8 + y) % 8 ≡ y = omega arith in
    let fact =
      every_lem (λ n. not (bit_or (n / 8) (n % 8) == 0) || n % 8 == 0) 64 (x * 8 + y) n
        zero_table in
    let at : (not (bit_or x y == 0) || y == 0) ≡ true =
      sym (ap₂ (λ (u v : ℕ). not (bit_or u v == 0) || v == 0) p q) ∙ fact in
    ground (arith, at)

-- Where the words are aligned the length is a number of words.
pub aligned : (dest len : ℕ) → (bit_and (bit_or dest len) 7 == 0) ≡ true → len / 8 * 8 ≡ len
aligned dest len h =
    let low : bit_or dest len % 2 ^ 3 ≡ 0 =
      sym (bit_and_mask 3 (bit_or dest len)) ∙ (==_iff (bit_and (bit_or dest len) 7) 0).0 h in
    let d : dest / 8 * 2 ^ 3 + dest % 8 ≡ dest = omega arith in
    let l : len / 8 * 2 ^ 3 + len % 8 ≡ len = omega arith in
    let parts : bit_or dest len
        ≡ bit_or (dest / 8) (len / 8) * 2 ^ 3 + bit_or (dest % 8) (len % 8) =
      sym (ap₂ bit_or d l)
      ∙ bit_or_split 3 (dest / 8) (len / 8) (dest % 8) (len % 8) (omega arith) (omega arith) in
    let small : bit_or (dest % 8) (len % 8) < 8 =
      low_bits_small (dest % 8) (len % 8) (omega arith) (omega arith) in
    let none : len % 8 ≡ 0 =
      low_bits_zero (dest % 8) (len % 8) (omega arith) (omega arith) (omega arith) in
    omega arith

-- memset stores the byte at every address of the block and leaves the others, whether it stores
-- words or bytes, where addresses do not wrap around.
pub memset_lem :
    (dest byte len : ℕ) (mem : ℕ → ℕ) (a : ℕ)
    → memset dest byte len mem a ≡ (if within dest len a then u8 byte else mem a)
unfolding memset
memset_lem dest byte len mem a = elim (Bool-cases (bit_and (bit_or dest len) 7 == 0)) [
  | inl e ↦
      rw (memset, e)
        (fill_words_lem (len / 8) dest (u8 byte) mem a (omega arith)
          ∙ ap (λ (n : ℕ). if within dest n a then u8 byte else mem a) (aligned dest len e))
  | inr e ↦ rw (memset, e) (fill_bytes_lem len dest (u8 byte) mem a)
]
