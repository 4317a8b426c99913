-- ===== src/Emulation/Misaligned/Words.antt =====
-- A misaligned load puts the bytes at the address together out of the two words around it.
use lowrisc_kc.Base.{
  ℕ, zero, suc, ◌+◌, ◌-◌, ◌*◌, ◌/◌, ◌%◌, ◌^◌, ◌≤◌, ◌<◌, ◌≡◌, ap, ap₂, ◌∙◌, Bool, Option, some,
  arith, u64,
}
use lowrisc_kc.Base.Bits.{bit_or_low}
use lowrisc_kc.Emulation.State.{Hart}
use lowrisc_kc.Emulation.Memory.{load}
use lowrisc_kc.Emulation.Misaligned.{merge, do_load, extend, both}
use lowrisc_kc.Emulation.Misaligned.Bytes.{little_endian, Holds, load-Holds}

merged :
    (n d u addr lo hi : ℕ)
    → addr * 8 % (8 * n) ≡ d
    → (n + 2 ^ 64 - addr) * 8 % (8 * n) ≡ u
    → lo / 2 ^ d < 2 ^ u
    → hi * 2 ^ u % 2 ^ (8 * n) ≡ hi % 2 ^ d * 2 ^ u
    → merge n addr lo hi ≡ lo / 2 ^ d + hi % 2 ^ d * 2 ^ u
unfolding merge
merged n d u addr lo hi ed eu fits wraps =
    rw (ed, eu, wraps) (bit_or_low u (hi % 2 ^ d) (lo / 2 ^ d) fits)

do_load_value4 :
    (r k : ℕ) (f : ℕ → ℕ)
    → ((i : ℕ) → f i < 256)
    → 0 < r
    → r < 4
    → 4 * k + 8 ≤ 2 ^ 64
    → merge 4 (4 * k + r) (little_endian 4 f 0) (little_endian 4 f 4) ≡ little_endian 4 f r
do_load_value4 (suc zero) k f small p q fits =
    merged 4 8 24 (4 * k + 1) (little_endian 4 f 0) (little_endian 4 f 4) (omega arith)
      (omega arith)
      (omega (arith, small 0, small 1, small 2, small 3, small 4, small 5, small 6, small 7))
      (omega arith)
    ∙ omega (arith, small 0, small 1, small 2, small 3, small 4, small 5, small 6, small 7)
do_load_value4 (suc (suc zero)) k f small p q fits =
    merged 4 16 16 (4 * k + 2) (little_endian 4 f 0) (little_endian 4 f 4) (omega arith)
      (omega arith)
      (omega (arith, small 0, small 1, small 2, small 3, small 4, small 5, small 6, small 7))
      (omega arith)
    ∙ omega (arith, small 0, small 1, small 2, small 3, small 4, small 5, small 6, small 7)
do_load_value4 (suc (suc (suc zero))) k f small p q fits =
    merged 4 24 8 (4 * k + 3) (little_endian 4 f 0) (little_endian 4 f 4) (omega arith)
      (omega arith)
      (omega (arith, small 0, small 1, small 2, small 3, small 4, small 5, small 6, small 7))
      (omega arith)
    ∙ omega (arith, small 0, small 1, small 2, small 3, small 4, small 5, small 6, small 7)
do_load_value4 zero k f small p q fits = absurd (omega arith)
do_load_value4 (suc (suc (suc (suc r)))) k f small p q fits = absurd (omega arith)

do_load_value8 :
    (r k : ℕ) (f : ℕ → ℕ)
    → ((i : ℕ) → f i < 256)
    → 0 < r
    → r < 8
    → 8 * k + 16 ≤ 2 ^ 64
    → merge 8 (8 * k + r) (little_endian 8 f 0) (little_endian 8 f 8) ≡ little_endian 8 f r
do_load_value8 (suc zero) k f small p q fits =
    merged 8 8 56 (8 * k + 1) (little_endian 8 f 0) (little_endian 8 f 8) (omega arith)
      (omega arith)
      (omega (
        arith,
        small 0,
        small 1,
        small 2,
        small 3,
        small 4,
        small 5,
        small 6,
        small 7,
        small 8,
        small 9,
        small 10,
        small 11,
        small 12,
        small 13,
        small 14,
        small 15,
      ))
      (omega arith)
    ∙ omega (
      arith,
      small 0,
      small 1,
      small 2,
      small 3,
      small 4,
      small 5,
      small 6,
      small 7,
      small 8,
      small 9,
      small 10,
      small 11,
      small 12,
      small 13,
      small 14,
      small 15,
    )
do_load_value8 (suc (suc zero)) k f small p q fits =
    merged 8 16 48 (8 * k + 2) (little_endian 8 f 0) (little_endian 8 f 8) (omega arith)
      (omega arith)
      (omega (
        arith,
        small 0,
        small 1,
        small 2,
        small 3,
        small 4,
        small 5,
        small 6,
        small 7,
        small 8,
        small 9,
        small 10,
        small 11,
        small 12,
        small 13,
        small 14,
        small 15,
      ))
      (omega arith)
    ∙ omega (
      arith,
      small 0,
      small 1,
      small 2,
      small 3,
      small 4,
      small 5,
      small 6,
      small 7,
      small 8,
      small 9,
      small 10,
      small 11,
      small 12,
      small 13,
      small 14,
      small 15,
    )
do_load_value8 (suc (suc (suc zero))) k f small p q fits =
    merged 8 24 40 (8 * k + 3) (little_endian 8 f 0) (little_endian 8 f 8) (omega arith)
      (omega arith)
      (omega (
        arith,
        small 0,
        small 1,
        small 2,
        small 3,
        small 4,
        small 5,
        small 6,
        small 7,
        small 8,
        small 9,
        small 10,
        small 11,
        small 12,
        small 13,
        small 14,
        small 15,
      ))
      (omega arith)
    ∙ omega (
      arith,
      small 0,
      small 1,
      small 2,
      small 3,
      small 4,
      small 5,
      small 6,
      small 7,
      small 8,
      small 9,
      small 10,
      small 11,
      small 12,
      small 13,
      small 14,
      small 15,
    )
do_load_value8 (suc (suc (suc (suc zero)))) k f small p q fits =
    merged 8 32 32 (8 * k + 4) (little_endian 8 f 0) (little_endian 8 f 8) (omega arith)
      (omega arith)
      (omega (
        arith,
        small 0,
        small 1,
        small 2,
        small 3,
        small 4,
        small 5,
        small 6,
        small 7,
        small 8,
        small 9,
        small 10,
        small 11,
        small 12,
        small 13,
        small 14,
        small 15,
      ))
      (omega arith)
    ∙ omega (
      arith,
      small 0,
      small 1,
      small 2,
      small 3,
      small 4,
      small 5,
      small 6,
      small 7,
      small 8,
      small 9,
      small 10,
      small 11,
      small 12,
      small 13,
      small 14,
      small 15,
    )
do_load_value8 (suc (suc (suc (suc (suc zero))))) k f small p q fits =
    merged 8 40 24 (8 * k + 5) (little_endian 8 f 0) (little_endian 8 f 8) (omega arith)
      (omega arith)
      (omega (
        arith,
        small 0,
        small 1,
        small 2,
        small 3,
        small 4,
        small 5,
        small 6,
        small 7,
        small 8,
        small 9,
        small 10,
        small 11,
        small 12,
        small 13,
        small 14,
        small 15,
      ))
      (omega arith)
    ∙ omega (
      arith,
      small 0,
      small 1,
      small 2,
      small 3,
      small 4,
      small 5,
      small 6,
      small 7,
      small 8,
      small 9,
      small 10,
      small 11,
      small 12,
      small 13,
      small 14,
      small 15,
    )
do_load_value8 (suc (suc (suc (suc (suc (suc zero)))))) k f small p q fits =
    merged 8 48 16 (8 * k + 6) (little_endian 8 f 0) (little_endian 8 f 8) (omega arith)
      (omega arith)
      (omega (
        arith,
        small 0,
        small 1,
        small 2,
        small 3,
        small 4,
        small 5,
        small 6,
        small 7,
        small 8,
        small 9,
        small 10,
        small 11,
        small 12,
        small 13,
        small 14,
        small 15,
      ))
      (omega arith)
    ∙ omega (
      arith,
      small 0,
      small 1,
      small 2,
      small 3,
      small 4,
      small 5,
      small 6,
      small 7,
      small 8,
      small 9,
      small 10,
      small 11,
      small 12,
      small 13,
      small 14,
      small 15,
    )
do_load_value8 (suc (suc (suc (suc (suc (suc (suc zero))))))) k f small p q fits =
    merged 8 56 8 (8 * k + 7) (little_endian 8 f 0) (little_endian 8 f 8) (omega arith)
      (omega arith)
      (omega (
        arith,
        small 0,
        small 1,
        small 2,
        small 3,
        small 4,
        small 5,
        small 6,
        small 7,
        small 8,
        small 9,
        small 10,
        small 11,
        small 12,
        small 13,
        small 14,
        small 15,
      ))
      (omega arith)
    ∙ omega (
      arith,
      small 0,
      small 1,
      small 2,
      small 3,
      small 4,
      small 5,
      small 6,
      small 7,
      small 8,
      small 9,
      small 10,
      small 11,
      small 12,
      small 13,
      small 14,
      small 15,
    )
do_load_value8 zero k f small p q fits = absurd (omega arith)
do_load_value8 (suc (suc (suc (suc (suc (suc (suc (suc r)))))))) k f small p q fits =
    absurd (omega arith)

do_load-words :
    (n r k lo hi v : ℕ) (is_signed : Bool) (h : Hart)
    → (n * k + r) / n * n ≡ n * k
    → u64 (n * k + n) ≡ n * k + n
    → load n (n * k) h ≡ some lo
    → load n (n * k + n) h ≡ some hi
    → merge n (n * k + r) lo hi ≡ v
    → do_load n is_signed (n * k + r) h ≡ some (extend n is_signed v)
unfolding do_load both
do_load-words n r k lo hi v is_signed h base next el eh em =
    ap₂ (λ (x y : Option ℕ). both (λ lo hi. extend n is_signed (merge n (n * k + r) lo hi)) x y)
      (ap (λ (t : ℕ). load n t h) base ∙ el)
      (ap (λ (t : ℕ). load n (u64 (t + n)) h) base ∙ ap (λ (t : ℕ). load n t h) next ∙ eh)
    ∙ ap (λ (t : ℕ). some (extend n is_signed t)) em

module _ (h : Hart) (k r : ℕ) (f : ℕ → ℕ) (is_signed : Bool) (inside : 0 < r) where
  -- A misaligned load of four bytes reads the bytes at its address.
  pub do_load-Holds4 :
      r < 4
      → Holds h (4 * k) 8 f
      → do_load 4 is_signed (4 * k + r) h ≡ some (extend 4 is_signed (little_endian 4 f r))
  do_load-Holds4 below holds =
      do_load-words 4 r k _ _ _ is_signed h (omega arith) (omega (arith, holds.within))
        (ap (λ (t : ℕ). load 4 t h) (omega arith) ∙ load-Holds 4 0 holds (omega arith))
        (load-Holds 4 4 holds (omega arith))
        (do_load_value4 r k f holds.small inside below (omega (arith, holds.within)))

  -- The same of eight bytes.
  pub do_load-Holds8 :
      r < 8
      → Holds h (8 * k) 16 f
      → do_load 8 is_signed (8 * k + r) h ≡ some (extend 8 is_signed (little_endian 8 f r))
  do_load-Holds8 below holds =
      do_load-words 8 r k _ _ _ is_signed h (omega arith) (omega (arith, holds.within))
        (ap (λ (t : ℕ). load 8 t h) (omega arith) ∙ load-Holds 8 0 holds (omega arith))
        (load-Holds 8 8 holds (omega arith))
        (do_load_value8 r k f holds.small inside below (omega (arith, holds.within)))
