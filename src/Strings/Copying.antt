-- ===== src/Strings/Copying.antt =====
-- `memcpy` and `strcpy` of bbl/string.c on blocks that do not overlap.
use lowrisc_kc.Base.{
  ℕ, zero, suc, ◌+◌, ◌-◌, ◌*◌, ◌/◌, ◌%◌, ◌^◌, ◌<◌, ◌≤◌, ◌≡◌, ◌≢◌, ◌⊎◌, refl, sym, ap, ◌∙◌, fun_ext,
  true, false, Bool-cases, inl, inr, Option, some, bit_and, bit_or, ◌==◌, ==_iff, ne_test,
  if◌then◌else◌, arith,
}
use mathlib.Core.Option
use native.Mathlib.Nat.{div-div-eq-div-mul}
use native.Mathlib.Numerals.{towards_suc}
use lowrisc_kc.Base.Outcome.{store}
use lowrisc_kc.Strings.Filling.{aligned}
use lowrisc_kc.Strings.{
  within, store_word, load_bytes, copy_words, copy_bytes, memcpy, strlen, strcpy,
}

-- A block of `k` bytes at `d` as the block at `s` was.
unfoldable pub moved : ℕ → ℕ → ℕ → (ℕ → ℕ) → ℕ → ℕ
moved k d s mem a = if within d k a then mem (s + (a - d)) else mem a

-- The blocks do not overlap.
abbrev pub Apart : ℕ → ℕ → ℕ → Type 0
Apart k d s = (s + k ≤ d) ⊎ (d + k ≤ s)

within_bounds : (d k a : ℕ) → within d k a ≡ true → (d ≤ a) × (a < d + k)
within_bounds d k a e = ground arith

moved_twice :
    (k m d s : ℕ) (mem : ℕ → ℕ)
    → Apart (k + m) d s
    → moved m (d + k) (s + k) (moved k d s mem) ≡ moved (k + m) d s mem
unfolding moved
moved_twice k m d s mem h = fun_ext λ a. elim (Bool-cases (within (d + k) m a)) [
  | inl e ↦
      let (low, high) = within_bounds (d + k) m a e in
      let out : within d k (s + k + (a - (d + k))) ≡ false = ground (arith, low, high) in
      let whole : within d (k + m) a ≡ true = ground (arith, low, high) in
      rw (e, out, whole) (ap mem (omega (arith, low)))
  | inr e ↦ rw e (ground arith)
]

shift_byte : (i : ℕ) → 2 ^ (8 * suc i) ≡ 256 * 2 ^ (8 * i)
shift_byte i =
    let e : 8 * suc i ≡ 8 * i + 8 = omega arith in
    ap (λ (n : ℕ). 2 ^ n) e ∙ simp towards_suc (omega arith)

load_bytes_get :
    (count i s : ℕ) (mem : ℕ → ℕ)
    → ((a : ℕ) → mem a < 256)
    → i < count
    → load_bytes count s mem / 2 ^ (8 * i) % 256 ≡ mem (s + i)
unfolding load_bytes
load_bytes_get zero i s mem h k = absurd (omega arith)
load_bytes_get (suc count) zero s mem h k =
    let e : s + 0 ≡ s = omega arith in rw e (omega (arith, h s))
load_bytes_get (suc count) (suc i) s mem h k =
    let rest = load_bytes count (s + 1) mem in
    let whole = mem s + 256 * rest in
    let p : 2 ^ (8 * suc i) ≡ 256 * 2 ^ (8 * i) = shift_byte i in
    let e : s + 1 + i ≡ s + suc i = omega arith in
    ap (λ (q : ℕ). whole / q % 256) p
    ∙ ap (λ (q : ℕ). q % 256) (sym (div-div-eq-div-mul whole 256 (2 ^ (8 * i))))
    ∙ ap (λ (q : ℕ). q / 2 ^ (8 * i) % 256) (omega (arith, h s))
    ∙ load_bytes_get count i (s + 1) mem h (omega arith)
    ∙ ap mem e

store_word-load_bytes :
    (d s : ℕ) (mem : ℕ → ℕ)
    → ((a : ℕ) → mem a < 256)
    → store_word mem d (load_bytes 8 s mem) ≡ moved 8 d s mem
unfolding store_word moved
store_word-load_bytes d s mem h = fun_ext λ a. elim (Bool-cases (within d 8 a)) [
  | inl e ↦
      let (low, high) = within_bounds d 8 a e in
      rw e (load_bytes_get 8 (a - d) s mem h (omega (arith, low, high)))
  | inr e ↦ rw e refl
]

store-moved : (d s : ℕ) (mem : ℕ → ℕ) → store mem d (mem s) ≡ moved 1 d s mem
unfolding moved
store-moved d s mem = fun_ext λ a. elim (Bool-cases (d == a)) [
  | inl e ↦
      let same : d ≡ a = (==_iff d a).0 e in
      let here : within d 1 a ≡ true = ground (arith, same) in
      let o : s + (a - d) ≡ s = omega (arith, same) in rw (e, here, o) refl
  | inr e ↦ rw e (ground arith)
]

moved-lt : (k d s : ℕ) (mem : ℕ → ℕ) → ((a : ℕ) → mem a < 256) → (a : ℕ) → moved k d s mem a < 256
unfolding moved
moved-lt k d s mem h a = ground (arith, h a, h (s + (a - d)))

moved_none : (d s : ℕ) (mem : ℕ → ℕ) → moved 0 d s mem ≡ mem
unfolding moved
moved_none d s mem = fun_ext λ a. ground arith

copy_bytes_lem :
    (rounds d s : ℕ) (mem : ℕ → ℕ)
    → Apart rounds d s
    → copy_bytes rounds d s mem ≡ moved rounds d s mem
unfolding copy_bytes
copy_bytes_lem zero d s mem h = sym (moved_none d s mem)
copy_bytes_lem (suc rounds) d s mem h =
    ap (copy_bytes rounds (d + 1) (s + 1)) (store-moved d s mem)
    ∙ copy_bytes_lem rounds (d + 1) (s + 1) (moved 1 d s mem) (omega arith)
    ∙ moved_twice 1 rounds d s mem (omega arith)
    ∙ ap (λ (n : ℕ). moved n d s mem) (omega arith)

copy_words_lem :
    (rounds d s : ℕ) (mem : ℕ → ℕ)
    → ((a : ℕ) → mem a < 256)
    → Apart (8 * rounds) d s
    → copy_words rounds d s mem ≡ moved (8 * rounds) d s mem
unfolding copy_words
copy_words_lem zero d s mem bytes h = sym (moved_none d s mem)
copy_words_lem (suc rounds) d s mem bytes h =
    ap (copy_words rounds (d + 8) (s + 8)) (store_word-load_bytes d s mem bytes)
    ∙ copy_words_lem rounds (d + 8) (s + 8) (moved 8 d s mem) (moved-lt 8 d s mem bytes)
        (omega arith)
    ∙ moved_twice 8 (8 * rounds) d s mem (omega arith)
    ∙ ap (λ (n : ℕ). moved n d s mem) (omega arith)

-- memcpy between blocks of bytes that do not overlap makes the block at dest what the block at src
-- was, and changes no other byte, whether it copies words or bytes.
pub memcpy_lem :
    (dest src len : ℕ) (mem : ℕ → ℕ) (a : ℕ)
    → ((b : ℕ) → mem b < 256)
    → (src + len ≤ dest) ⊎ (dest + len ≤ src)
    → memcpy dest src len mem a ≡ (if within dest len a then mem (src + (a - dest)) else mem a)
unfolding memcpy moved
memcpy_lem dest src len mem a bytes h =
    elim (Bool-cases (bit_and (bit_or (bit_or dest src) len) 7 == 0)) [
      | inl e ↦
          let whole : len / 8 * 8 ≡ len = aligned (bit_or dest src) len e in
          let size : 8 * (len / 8) ≡ len = omega (arith, whole) in
          rw e (
            ap (λ (f : ℕ → ℕ). f a)
              (copy_words_lem (len / 8) dest src mem bytes (omega (arith, size)))
            ∙ ap (λ (n : ℕ). moved n dest src mem a) size)
      | inr e ↦ rw e (ap (λ (f : ℕ → ℕ). f a) (copy_bytes_lem len dest src mem h))
    ]

-- A string of length `n` at `s`.
abbrev pub IsString : ℕ → ℕ → (ℕ → ℕ) → Type 0
IsString n s mem = ((i : ℕ) → i < n → mem (s + i) ≢ 0) × (mem (s + n) ≡ 0)

IsString-rest :
    (n d s : ℕ) (mem : ℕ → ℕ) (v : ℕ)
    → IsString (suc n) s mem
    → Apart (suc (suc n)) d s
    → IsString n (s + 1) (store mem d v)
IsString-rest n d s mem v t h = (
  λ i k.
      let e : s + 1 + i ≡ s + suc i = omega arith in
      rw (ne_test d (s + 1 + i) (λ q. absurd (omega (arith, q, h))), e) (t.0 (suc i) (omega arith)),
  (let e : s + 1 + n ≡ s + suc n = omega arith in
      rw (ne_test d (s + 1 + n) (λ q. absurd (omega (arith, q, h))), e) (t.1)),
)

strcpy-copy_bytes :
    (n d s : ℕ) (mem : ℕ → ℕ)
    → IsString n s mem
    → Apart (suc n) d s
    → strcpy (suc n) d s mem ≡ some (copy_bytes (suc n) d s mem)
unfolding strcpy copy_bytes
strcpy-copy_bytes zero d s mem t h = let e : mem s ≡ 0 = ap mem (omega arith) ∙ t.1 in rw e refl
strcpy-copy_bytes (suc n) d s mem t h =
    let o : s + 0 ≡ s = omega arith in
    let start : mem s ≢ 0 = λ z. t.0 0 (omega arith) (ap mem o ∙ z) in
    rw (ne_test (mem s) 0 start) (
      strcpy-copy_bytes n (d + 1) (s + 1) (store mem d (mem s))
        (IsString-rest n d s mem (mem s) t h) (omega (arith, h)))

-- strcpy of a string comes to an end after a round for each byte and the zero, the string and its
-- zero stand at dest as they were at src, and no other byte is changed, where they do not overlap.
pub strcpy_lem :
    (n dest src : ℕ) (mem : ℕ → ℕ)
    → IsString n src mem
    → (src + suc n ≤ dest) ⊎ (dest + suc n ≤ src)
    → (after : ℕ → ℕ) × (strcpy (suc n) dest src mem ≡ some after)
      × ((a : ℕ) → after a ≡ (if within dest (suc n) a then mem (src + (a - dest)) else mem a))
unfolding moved
strcpy_lem n dest src mem t h = (
  copy_bytes (suc n) dest src mem,
  strcpy-copy_bytes n dest src mem t h,
  λ a. ap (λ (f : ℕ → ℕ). f a) (copy_bytes_lem (suc n) dest src mem h),
)

-- strlen of a string is its length, after a round for each byte and the zero.
pub strlen_lem : (n s : ℕ) (mem : ℕ → ℕ) → IsString n s mem → strlen (suc n) s mem ≡ some n
unfolding strlen
strlen_lem zero s mem t = let e : mem s ≡ 0 = ap mem (omega arith) ∙ t.1 in rw e refl
strlen_lem (suc n) s mem t =
    let o : s + 0 ≡ s = omega arith in
    let start : mem s ≢ 0 = λ z. t.0 0 (omega arith) (ap mem o ∙ z) in
    let e : (i : ℕ) → s + 1 + i ≡ s + suc i = λ i. omega arith in
    rw (ne_test (mem s) 0 start) (
      ap (λ (r : Option ℕ). Option.map suc r)
        (strlen_lem n (s + 1) mem
          ((λ i k z. t.0 (suc i) (omega arith) (ap mem (sym (e i)) ∙ z)), ap mem (e n) ∙ t.1)))
