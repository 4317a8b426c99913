-- ===== src/Emulation/MulDiv/High.antt =====
-- The high words of products.
use lowrisc_kc.Base.{
  ℕ, suc, ◌+◌, ◌-◌, ◌*◌, ◌/◌, ◌%◌, ◌^◌, ◌≤◌, ◌<◌, ◌≡◌, refl, sym, ap, ap₂, ◌∙◌, arith, u64, dec_lt,
}
use lowrisc_kc.Base.Int.{pos, negsuc, ◌+ℤ◌, ◌*ℤ◌, signed, sub_ℕ}
use native.Mathlib.Nat.{mul_comm}
use lowrisc_kc.Emulation.MulDiv.{high_word, sign_extend128}

product-lt : (a b m n : ℕ) → a < m → b < n → a * b < m * n
product-lt a b m n h k = grind arith

-- MULHU: the two words of the product of two unsigned words.
pub high_word-unsigned :
    (a b : ℕ) → a < 2 ^ 64 → b < 2 ^ 64 → high_word a b * 2 ^ 64 + u64 (a * b) ≡ a * b
unfolding high_word
high_word-unsigned a b ha hb = omega (arith, product-lt a b (2 ^ 64) (2 ^ 64) ha hb)

signed_small : (a : ℕ) → a < 2 ^ 63 → signed 64 a ≡ pos a
signed_small a h = ground arith

signed_large : (a : ℕ) → 2 ^ 63 ≤ a → signed 64 a ≡ negsuc (2 ^ 64 - a - 1)
signed_large a h = ground arith

extend_small : (a : ℕ) → a < 2 ^ 63 → sign_extend128 a ≡ a
unfolding sign_extend128
extend_small a h = ground arith

extend_large : (a : ℕ) → 2 ^ 63 ≤ a → sign_extend128 a ≡ 2 ^ 128 - 2 ^ 64 + a
unfolding sign_extend128
extend_large a h = ground arith

-- A word and a carry-free low word make up a signed number of two words.
two_words :
    (n : ℕ) → n < 2 ^ 127 → pos n ≡ signed 64 (n / 2 ^ 64) *ℤ pos (2 ^ 64) +ℤ pos (n % 2 ^ 64)
unfolding ◌+ℤ◌ ◌*ℤ◌
two_words n h = ground arith

two_words_negative :
    (n : ℕ)
    → 2 ^ 127 ≤ n
    → n < 2 ^ 128
    → negsuc (2 ^ 128 - n - 1) ≡ signed 64 (n / 2 ^ 64) *ℤ pos (2 ^ 64) +ℤ pos (n % 2 ^ 64)
unfolding ◌+ℤ◌ ◌*ℤ◌
two_words_negative n h k = rw (signed_large (n / 2 ^ 64) (omega arith)) (ground arith)

two_words_signed :
    (n : ℕ)
    → n < 2 ^ 128
    → signed 128 n ≡ signed 64 (n / 2 ^ 64) *ℤ pos (2 ^ 64) +ℤ pos (n % 2 ^ 64)
two_words_signed n h = elim (dec_lt n (2 ^ 127)) [
  | yes k ↦ small k ∙ two_words n k
  | no k ↦ large k ∙ two_words_negative n (omega arith) h
]
  where
    small : n < 2 ^ 127 → signed 128 n ≡ pos n
    small k = ground arith

    large : ¬ (n < 2 ^ 127) → signed 128 n ≡ negsuc (2 ^ 128 - n - 1)
    large k = ground arith

-- Products of the extended words, modulo two words; `x` and `y` are the magnitudes.
neg_mul_neg :
    (u v x y : ℕ) → u + x ≡ 2 ^ 128 → v + y ≡ 2 ^ 128 → x * y < 2 ^ 128 → u * v % 2 ^ 128 ≡ x * y
neg_mul_neg u v x y hu hv h = omega (arith, ap (λ (t : ℕ). u * t) hv, ap (λ (t : ℕ). t * y) hu)

neg_mul_pos :
    (u x b : ℕ) → u + x ≡ 2 ^ 128 → x * b ≤ 2 ^ 127 → u * b % 2 ^ 128 ≡ (2 ^ 128 - x * b) % 2 ^ 128
neg_mul_pos u x b hu h = omega (arith, ap (λ (t : ℕ). t * b) hu)

signed_neg : (t : ℕ) → t ≤ 2 ^ 127 → sub_ℕ 0 t ≡ signed 128 ((2 ^ 128 - t) % 2 ^ 128)
signed_neg t h = ground arith

signed_pos : (t : ℕ) → t < 2 ^ 127 → sub_ℕ t 0 ≡ signed 128 t
signed_pos t h = ground arith

magnitude_mul : (x y m n : ℕ) → x ≤ m → y ≤ n → x * y ≤ m * n
magnitude_mul x y m n h k = grind arith

pos_mul_pos : (x y : ℕ) → pos x *ℤ pos y ≡ sub_ℕ (x * y) 0
unfolding ◌*ℤ◌
pos_mul_pos x y = ap₂ sub_ℕ (omega arith) (omega arith)

negsuc_mul_pos : (x y : ℕ) → negsuc x *ℤ pos y ≡ sub_ℕ 0 (suc x * y)
unfolding ◌*ℤ◌
negsuc_mul_pos x y = ap₂ sub_ℕ (omega arith) (omega arith)

pos_mul_negsuc : (x y : ℕ) → pos x *ℤ negsuc y ≡ sub_ℕ 0 (suc y * x)
unfolding ◌*ℤ◌
pos_mul_negsuc x y = ap₂ sub_ℕ (omega arith) (omega arith)

negsuc_mul_negsuc : (x y : ℕ) → negsuc x *ℤ negsuc y ≡ sub_ℕ (suc x * suc y) 0
unfolding ◌*ℤ◌
negsuc_mul_negsuc x y = ap₂ sub_ℕ (omega arith) (omega arith)

module _ (a b : ℕ) (ha : a < 2 ^ 64) (hb : b < 2 ^ 64) where
  abbrev Reads : Type 0
  Reads = signed 64 a *ℤ signed 64 b ≡ signed 128 (sign_extend128 a * sign_extend128 b % 2 ^ 128)

  small_small : a < 2 ^ 63 → b < 2 ^ 63 → Reads
  small_small p q =
      rw (signed_small a p, signed_small b q, extend_small a p, extend_small b q, pos_mul_pos)
        (let bound = product-lt a b (2 ^ 63) (2 ^ 63) p q in
          let whole : a * b % 2 ^ 128 ≡ a * b = omega (arith, bound) in
          rw whole (signed_pos (a * b) (omega (arith, bound))))

  large_small : 2 ^ 63 ≤ a → b < 2 ^ 63 → Reads
  large_small p q =
      rw (signed_large a p, signed_small b q, extend_large a p, extend_small b q, negsuc_mul_pos)
        (let x : ℕ = suc (2 ^ 64 - a - 1) in
          let bound = magnitude_mul x b (2 ^ 63) (2 ^ 63) (omega arith) (omega arith) in
          signed_neg (x * b) (omega (arith, bound))
          ∙ ap (signed 128)
              (sym (neg_mul_pos (2 ^ 128 - 2 ^ 64 + a) x b (omega arith) (omega (arith, bound)))))

  small_large : a < 2 ^ 63 → 2 ^ 63 ≤ b → Reads
  small_large p q =
      rw (signed_small a p, signed_large b q, extend_small a p, extend_large b q, pos_mul_negsuc)
        (let y : ℕ = suc (2 ^ 64 - b - 1) in
          let bound = magnitude_mul y a (2 ^ 63) (2 ^ 63) (omega arith) (omega arith) in
          signed_neg (y * a) (omega (arith, bound))
          ∙ ap (signed 128) (
              sym (neg_mul_pos (2 ^ 128 - 2 ^ 64 + b) y a (omega arith) (omega (arith, bound)))
              ∙ ap (λ (t : ℕ). t % 2 ^ 128) (mul_comm (2 ^ 128 - 2 ^ 64 + b) a)))

  large_large : 2 ^ 63 ≤ a → 2 ^ 63 ≤ b → Reads
  large_large p q =
      rw (signed_large a p, signed_large b q, extend_large a p, extend_large b q, negsuc_mul_negsuc)
        (let x : ℕ = suc (2 ^ 64 - a - 1) in
          let y : ℕ = suc (2 ^ 64 - b - 1) in
          let bound = magnitude_mul x y (2 ^ 63) (2 ^ 63) (omega arith) (omega arith) in
          signed_pos (x * y) (omega (arith, bound))
          ∙ ap (signed 128) (
              sym (
                neg_mul_neg (2 ^ 128 - 2 ^ 64 + a) (2 ^ 128 - 2 ^ 64 + b) x y (omega arith)
                  (omega arith) (omega (arith, bound)))))

  -- The signed product is the signed reading of the product of the extended words.
  signed-mul : Reads
  signed-mul = elim (dec_lt a (2 ^ 63)) [
    | yes p ↦ elim (dec_lt b (2 ^ 63)) [
      | yes q ↦ small_small p q
      | no q ↦ small_large p (omega arith)
    ]
    | no p ↦ elim (dec_lt b (2 ^ 63)) [
      | yes q ↦ large_small (omega arith) q
      | no q ↦ large_large (omega arith) (omega arith)
    ]
  ]

-- Extending a word keeps it modulo a word, and so the low word of the product.
extend-low : (a : ℕ) → a < 2 ^ 64 → (k : ℕ) × (sign_extend128 a ≡ a + k * 2 ^ 64)
unfolding sign_extend128
extend-low a h = elim (dec_lt a (2 ^ 63)) [
  | yes p ↦ (0, ground arith)
  | no p ↦ (2 ^ 64 - 1, ground arith)
]

low_word : (a b m n : ℕ) → (a + m * 2 ^ 64) * (b + n * 2 ^ 64) % 2 ^ 64 ≡ a * b % 2 ^ 64
low_word a b m n = omega arith

low-extend :
    (a b : ℕ)
    → a < 2 ^ 64
    → b < 2 ^ 64
    → sign_extend128 a * sign_extend128 b % 2 ^ 128 % 2 ^ 64 ≡ u64 (a * b)
low-extend a b ha hb =
    let (m, em) = extend-low a ha in
    let (n, en) = extend-low b hb in
    let inner : sign_extend128 a * sign_extend128 b % 2 ^ 64 ≡ u64 (a * b) =
      rw (em, en) (low_word a b m n) in
    omega (arith, inner)

-- MULH: the two words of the product of two signed words.
pub high_word-signed :
    (a b : ℕ)
    → a < 2 ^ 64
    → b < 2 ^ 64
    → signed 64 a *ℤ signed 64 b
      ≡ signed 64 (high_word (sign_extend128 a) (sign_extend128 b)) *ℤ pos (2 ^ 64)
        +ℤ pos (u64 (a * b))
unfolding high_word
high_word-signed a b ha hb =
    signed-mul a b ha hb
    ∙ two_words_signed (sign_extend128 a * sign_extend128 b % 2 ^ 128) (omega arith)
    ∙ rw (low-extend a b ha hb) refl

signed-mul-unsigned :
    (a b : ℕ)
    → a < 2 ^ 64
    → b < 2 ^ 64
    → signed 64 a *ℤ pos b ≡ signed 128 (sign_extend128 a * b % 2 ^ 128)
signed-mul-unsigned a b ha hb = elim (dec_lt a (2 ^ 63)) [
  | yes p ↦
      rw (signed_small a p, extend_small a p, pos_mul_pos)
        (let bound = product-lt a b (2 ^ 63) (2 ^ 64) p hb in
          let whole : a * b % 2 ^ 128 ≡ a * b = omega (arith, bound) in
          rw whole (signed_pos (a * b) (omega (arith, bound))))
  | no p ↦
      rw (signed_large a (omega arith), extend_large a (omega arith), negsuc_mul_pos)
        (let x : ℕ = suc (2 ^ 64 - a - 1) in
          let bound = magnitude_mul x b (2 ^ 63) (2 ^ 64) (omega arith) (omega arith) in
          signed_neg (x * b) (omega (arith, bound))
          ∙ ap (signed 128)
              (sym (neg_mul_pos (2 ^ 128 - 2 ^ 64 + a) x b (omega arith) (omega (arith, bound)))))
]

-- MULHSU: the two words of the product of a signed and an unsigned word.
pub high_word-signed_unsigned :
    (a b : ℕ)
    → a < 2 ^ 64
    → b < 2 ^ 64
    → signed 64 a *ℤ pos b
      ≡ signed 64 (high_word (sign_extend128 a) b) *ℤ pos (2 ^ 64) +ℤ pos (u64 (a * b))
unfolding high_word
high_word-signed_unsigned a b ha hb =
    let (m, em) = extend-low a ha in
    let inner : sign_extend128 a * b % 2 ^ 64 ≡ u64 (a * b) = rw em (omega arith) in
    let low : sign_extend128 a * b % 2 ^ 128 % 2 ^ 64 ≡ u64 (a * b) = omega (arith, inner) in
    signed-mul-unsigned a b ha hb
    ∙ two_words_signed (sign_extend128 a * b % 2 ^ 128) (omega arith)
    ∙ rw low refl
