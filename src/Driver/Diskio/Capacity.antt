-- ===== src/Driver/Diskio/Capacity.antt =====
-- The capacity that `disk_ioctl` of driver/diskio.c reads from the card-specific data.
use lowrisc_kc.Base.{
  ℕ, ◌+◌, ◌-◌, ◌*◌, ◌/◌, ◌%◌, ◌^◌, ◌<◌, ◌≤◌, ◌≡◌, refl, ap₂, ◌∙◌, true, false, List, bit_and, every,
  every_lem, if◌then◌else◌, ltb, lt→ltb, ltb→lt, ◌==◌, ==_iff, u8, u32, arith,
}
use native.Mathlib.Nat.{mul-le-mul}
use lowrisc_kc.Base.Bits.{bit_and_mask}
use lowrisc_kc.Driver.Diskio.Control.{at, shift_left, sectors_v1, sectors_v2, sector_count}

-- The register as the specification of the card numbers its bits: 128 of them, the first byte the
-- highest.
unfoldable pub register : List ℕ → ℕ
register csd =
    at csd 0 * 2 ^ 120
    + at csd 1 * 2 ^ 112
    + at csd 2 * 2 ^ 104
    + at csd 3 * 2 ^ 96
    + at csd 4 * 2 ^ 88
    + at csd 5 * 2 ^ 80
    + at csd 6 * 2 ^ 72
    + at csd 7 * 2 ^ 64
    + at csd 8 * 2 ^ 56
    + at csd 9 * 2 ^ 48
    + at csd 10 * 2 ^ 40
    + at csd 11 * 2 ^ 32
    + at csd 12 * 2 ^ 24
    + at csd 13 * 2 ^ 16
    + at csd 14 * 2 ^ 8
    + at csd 15

-- The field of `width` bits from bit `low` on.
unfoldable pub bits : ℕ → ℕ → List ℕ → ℕ
unfolding register
bits low width csd = register csd / 2 ^ low % 2 ^ width

module _ (csd : List ℕ) (bytes : (i : ℕ) → at csd i < 256) where
  byte_bounds :
      (at csd 0 < 256)
      × (at csd 1 < 256)
      × (at csd 2 < 256)
      × (at csd 3 < 256)
      × (at csd 4 < 256)
      × (at csd 5 < 256)
      × (at csd 6 < 256)
      × (at csd 7 < 256)
      × (at csd 8 < 256)
      × (at csd 9 < 256)
      × (at csd 10 < 256)
      × (at csd 11 < 256)
      × (at csd 12 < 256)
      × (at csd 13 < 256)
      × (at csd 14 < 256)
      × (at csd 15 < 256)
  byte_bounds = (
    bytes 0,
    bytes 1,
    bytes 2,
    bytes 3,
    bytes 4,
    bytes 5,
    bytes 6,
    bytes 7,
    bytes 8,
    bytes 9,
    bytes 10,
    bytes 11,
    bytes 12,
    bytes 13,
    bytes 14,
    bytes 15,
  )

  c_size_v2 : bits 48 22 csd ≡ at csd 7 % 64 * 2 ^ 16 + at csd 8 * 2 ^ 8 + at csd 9
  unfolding bits
  c_size_v2 = omega (arith, byte_bounds)

  c_size_v1 : bits 62 12 csd ≡ at csd 6 % 4 * 2 ^ 10 + at csd 7 * 2 ^ 2 + at csd 8 / 2 ^ 6
  unfolding bits
  c_size_v1 = omega (arith, byte_bounds)

  c_size_mult : bits 47 3 csd ≡ at csd 9 % 4 * 2 + at csd 10 / 2 ^ 7
  unfolding bits
  c_size_mult = omega (arith, byte_bounds)

  read_bl_len : bits 80 4 csd ≡ at csd 5 % 16
  unfolding bits
  read_bl_len = omega (arith, byte_bounds)

  csd_structure : bits 126 2 csd ≡ at csd 0 / 2 ^ 6
  unfolding bits
  csd_structure = omega (arith, byte_bounds)

high_bit_table : every (λ x. bit_and x 128 / 2 ^ 7 == x / 2 ^ 7) 256 ≡ true
unfolding every
high_bit_table = refl

high_bit : (x : ℕ) → x < 256 → bit_and x 128 / 2 ^ 7 ≡ x / 2 ^ 7
high_bit x h =
    (==_iff (bit_and x 128 / 2 ^ 7) (x / 2 ^ 7)).0
      (every_lem (λ x. bit_and x 128 / 2 ^ 7 == x / 2 ^ 7) 256 x h high_bit_table)

power_table : every (λ k. ltb (2 ^ k) 2049) 12 ≡ true
unfolding every
power_table = refl

shift_left_lem : (x k : ℕ) → x ≤ 4096 → k ≤ 11 → shift_left x k ≡ x * 2 ^ k
unfolding shift_left
shift_left_lem x k h j =
    let small : 2 ^ k < 2049 =
      ltb→lt (2 ^ k) 2049 (every_lem (λ k. ltb (2 ^ k) 2049) 12 k (omega arith) power_table) in
    let below : x * 2 ^ k ≤ 4096 * 2048 = mul-le-mul {m₂ = 2048} h (omega (arith, small)) in
    rw (lt→ltb k 32 (omega arith)) (omega (arith, below))

module _ (csd : List ℕ) (bytes : (i : ℕ) → at csd i < 256) where
  sectors_v2_lem : sectors_v2 csd ≡ u32 ((bits 48 22 csd + 1) * 2 ^ 10)
  unfolding sectors_v2 shift_left
  sectors_v2_lem =
      let low : bit_and (at csd 7) 63 ≡ at csd 7 % 2 ^ 6 = bit_and_mask 6 (at csd 7) in
      omega (arith, low, c_size_v2 csd bytes, bytes 7, bytes 8, bytes 9)

  sectors_v1_lem :
      9 ≤ bits 80 4 csd
      → bits 80 4 csd ≤ 11
      → sectors_v1 csd ≡ (bits 62 12 csd + 1) * 2 ^ (bits 47 3 csd + 2 + bits 80 4 csd - 9)
  unfolding sectors_v1
  sectors_v1_lem low high =
      let len : bit_and (at csd 5) 15 ≡ at csd 5 % 2 ^ 4 = bit_and_mask 4 (at csd 5) in
      let mult : bit_and (at csd 9) 3 ≡ at csd 9 % 2 ^ 2 = bit_and_mask 2 (at csd 9) in
      let size : bit_and (at csd 6) 3 ≡ at csd 6 % 2 ^ 2 = bit_and_mask 2 (at csd 6) in
      let top : bit_and (at csd 10) 128 / 2 ^ 7 ≡ at csd 10 / 2 ^ 7 =
        high_bit (at csd 10) (bytes 10) in
      let n =
        u8 (
          bit_and (at csd 5) 15 + bit_and (at csd 10) 128 / 2 ^ 7 + bit_and (at csd 9) 3 * 2 + 2) in
      let exponent : n ≡ bits 47 3 csd + 2 + bits 80 4 csd =
        omega (arith, len, mult, top, c_size_mult csd bytes, read_bl_len csd bytes, bytes 10) in
      let large : ltb n 9 ≡ false = ground (arith, exponent) in
      ap₂ shift_left (omega (arith, size, c_size_v1 csd bytes, bytes 7, bytes 8))
        (rw (large, exponent) refl)
      ∙ shift_left_lem (bits 62 12 csd + 1) (bits 47 3 csd + 2 + bits 80 4 csd - 9)
          (omega (arith, c_size_v1 csd bytes, bytes 7, bytes 8))
          (omega (arith, c_size_mult csd bytes, bytes 10))

  -- disk_ioctl reads the number of sectors off the register as the specification of the card lays
  -- it out, for blocks of 512 to 2048 bytes: 1024 times the field C_SIZE and one in version 2,
  -- modulo 2^32, and the product of C_SIZE and one, C_SIZE_MULT and READ_BL_LEN in the others.
  pub sector_count_lem :
      9 ≤ bits 80 4 csd
      → bits 80 4 csd ≤ 11
      → sector_count csd ≡ (
          if bits 126 2 csd == 1
          then u32 ((bits 48 22 csd + 1) * 2 ^ 10)
          else (bits 62 12 csd + 1) * 2 ^ (bits 47 3 csd + 2 + bits 80 4 csd - 9))
  unfolding sector_count
  sector_count_lem low high =
      rw (csd_structure csd bytes, sectors_v2_lem, sectors_v1_lem low high) refl
