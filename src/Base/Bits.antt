-- ===== src/Base/Bits.antt =====
-- The bit operations at variables: the law of the lowest digit, and the law of a split at any
-- digit, from which masks and disjoint fields follow.
use Prim.Native.Nat.{digits, bitwise, bit_and-bitwise, bit_or-bitwise, bit_xor-bitwise, differ}
use native.Mathlib.Nat.{pow-suc, one-le-pow, mod-lt, div-add-mod'}
use lowrisc_kc.Base.{
  ℕ, zero, suc, ◌+◌, ◌-◌, ◌*◌, ◌/◌, ◌%◌, ◌^◌, ◌≤◌, ◌<◌, min, max, bit_and, bit_or, bit_xor, ◌≡◌,
  refl, sym, ap, ap₂, ◌∙◌, arith,
}

differ-zero : (b : ℕ) → b < 2 → differ 0 b ≡ b
differ-zero zero h = refl
differ-zero (suc zero) h = refl
differ-zero (suc (suc b)) h = absurd (omega arith)

-- The digits of a number need no more fuel than the number itself.
no_digits : (last : ℕ → ℕ) (join : ℕ → ℕ → ℕ) (fuel y : ℕ) → digits last join fuel zero y ≡ last y
no_digits last join zero y = refl
no_digits last join (suc fuel) y = refl

spare :
    (last : ℕ → ℕ) (join : ℕ → ℕ → ℕ) (fuel least x y : ℕ)
    → x ≤ least
    → least ≤ fuel
    → digits last join fuel x y ≡ digits last join least x y
spare last join fuel least zero y enough more =
    no_digits last join fuel y ∙ sym (no_digits last join least y)
spare last join fuel zero (suc x) y enough more = absurd (omega arith)
spare last join zero (suc least) (suc x) y enough more = absurd (omega arith)
spare last join (suc fuel) (suc least) (suc x) y enough more =
    ap (λ (rest : ℕ). rest * 2 + join (suc x % 2) (y % 2))
      (spare last join fuel least (suc x / 2) (y / 2) (omega arith) (omega arith))

lowest_digit :
    (last : ℕ → ℕ) (join : ℕ → ℕ → ℕ) (x y : ℕ)
    → bitwise last join (suc x) y
      ≡ bitwise last join (suc x / 2) (y / 2) * 2 + join (suc x % 2) (y % 2)
lowest_digit last join x y =
    let half = suc x / 2 in
    ap (λ (rest : ℕ). rest * 2 + join (suc x % 2) (y % 2))
      (spare last join x half half (y / 2) (omega arith) (omega arith))

pub bit_xor_step : (x y : ℕ) → bit_xor x y ≡ bit_xor (x / 2) (y / 2) * 2 + differ (x % 2) (y % 2)
bit_xor_step zero y =
    omega (arith, bit_xor-bitwise 0 y, bit_xor-bitwise 0 (y / 2), differ-zero (y % 2) (omega arith))
bit_xor_step (suc x) y =
    bit_xor-bitwise (suc x) y
    ∙ lowest_digit (λ last. last) differ x y
    ∙ rw (bit_xor-bitwise (suc x / 2) (y / 2)) refl

pub bit_or_step : (x y : ℕ) → bit_or x y ≡ bit_or (x / 2) (y / 2) * 2 + max (x % 2) (y % 2)
bit_or_step zero y = omega (arith, bit_or-bitwise 0 y, bit_or-bitwise 0 (y / 2))
bit_or_step (suc x) y =
    bit_or-bitwise (suc x) y
    ∙ lowest_digit (λ last. last) max x y
    ∙ rw (bit_or-bitwise (suc x / 2) (y / 2)) refl

pub bit_and_step : (x y : ℕ) → bit_and x y ≡ bit_and (x / 2) (y / 2) * 2 + min (x % 2) (y % 2)
bit_and_step zero y = omega (arith, bit_and-bitwise 0 y, bit_and-bitwise 0 (y / 2))
bit_and_step (suc x) y =
    bit_and-bitwise (suc x) y
    ∙ lowest_digit (λ _. 0) min x y
    ∙ rw (bit_and-bitwise (suc x / 2) (y / 2)) refl

-- A shift by one more is twice the shift.
double : (x n : ℕ) → x * 2 ^ suc n ≡ 2 * (x * 2 ^ n)
double x n = let power = pow-suc 2 n in omega (arith, ap (λ (p : ℕ). x * p) power)

-- An operation with a law for the lowest digit splits at every digit.
module _ (op g : ℕ → ℕ → ℕ) (none_set : op 0 0 ≡ 0)
    (step : (a b : ℕ) → op a b ≡ op (a / 2) (b / 2) * 2 + g (a % 2) (b % 2)) where
  split :
      (k q m r n : ℕ)
      → r < 2 ^ k
      → n < 2 ^ k
      → op (q * 2 ^ k + r) (m * 2 ^ k + n) ≡ op q m * 2 ^ k + op r n
  split zero q m r n hr hn =
      let r0 : r ≡ 0 = omega arith in
      let n0 : n ≡ 0 = omega arith in
      let q1 : q * 2 ^ 0 + 0 ≡ q = omega arith in
      let m1 : m * 2 ^ 0 + 0 ≡ m = omega arith in rw (r0, n0, q1, m1, none_set) (omega arith)
  split (suc k) q m r n hr hn =
      let qh : (q * 2 ^ suc k + r) / 2 ≡ q * 2 ^ k + r / 2 = omega (arith, double q k) in
      let mh : (m * 2 ^ suc k + n) / 2 ≡ m * 2 ^ k + n / 2 = omega (arith, double m k) in
      let ql : (q * 2 ^ suc k + r) % 2 ≡ r % 2 = omega (arith, double q k) in
      let ml : (m * 2 ^ suc k + n) % 2 ≡ n % 2 = omega (arith, double m k) in
      let ih = split k q m (r / 2) (n / 2) (half r hr) (half n hn) in
      step (q * 2 ^ suc k + r) (m * 2 ^ suc k + n)
      ∙ rw (qh, mh, ql, ml, ih) (omega (arith, step r n, double (op q m) k))
    where
      half : (x : ℕ) → x < 2 ^ suc k → x / 2 < 2 ^ k
      half x h = omega (arith, pow-suc 2 k)

pub bit_and_split :
    (k q m r n : ℕ)
    → r < 2 ^ k
    → n < 2 ^ k
    → bit_and (q * 2 ^ k + r) (m * 2 ^ k + n) ≡ bit_and q m * 2 ^ k + bit_and r n
bit_and_split = split bit_and min refl bit_and_step

pub bit_or_split :
    (k q m r n : ℕ)
    → r < 2 ^ k
    → n < 2 ^ k
    → bit_or (q * 2 ^ k + r) (m * 2 ^ k + n) ≡ bit_or q m * 2 ^ k + bit_or r n
bit_or_split = split bit_or max refl bit_or_step

pub bit_xor_split :
    (k q m r n : ℕ)
    → r < 2 ^ k
    → n < 2 ^ k
    → bit_xor (q * 2 ^ k + r) (m * 2 ^ k + n) ≡ bit_xor q m * 2 ^ k + bit_xor r n
bit_xor_split = split bit_xor differ refl bit_xor_step

pub zero-bit_and : (a : ℕ) → bit_and 0 a ≡ 0
zero-bit_and a = bit_and-bitwise 0 a

pub zero-bit_or : (a : ℕ) → bit_or 0 a ≡ a
zero-bit_or a = bit_or-bitwise 0 a

pub zero-bit_xor : (a : ℕ) → bit_xor 0 a ≡ a
zero-bit_xor a = bit_xor-bitwise 0 a

-- The other side, by the number of digits.
right_zero :
    (op g : ℕ → ℕ → ℕ) (e : ℕ → ℕ) (h0 : op 0 0 ≡ e 0)
    (he : (a : ℕ) → e a ≡ e (a / 2) * 2 + g (a % 2) 0)
    (step : (a b : ℕ) → op a b ≡ op (a / 2) (b / 2) * 2 + g (a % 2) (b % 2)) (n a : ℕ)
    → a ≤ n
    → op a 0 ≡ e a
right_zero op g e h0 he step n zero h = h0
right_zero op g e h0 he step zero (suc a) h = absurd (omega arith)
right_zero op g e h0 he step (suc n) (suc a) h =
    step (suc a) 0
    ∙ rw (right_zero op g e h0 he step n (suc a / 2) (omega arith)) (sym (he (suc a)))

pub bit_and-zero : (a : ℕ) → bit_and a 0 ≡ 0
bit_and-zero a =
    right_zero bit_and min (λ _. 0) refl (λ b. omega arith) bit_and_step a a (omega arith)

pub bit_or-zero : (a : ℕ) → bit_or a 0 ≡ a
bit_or-zero a = right_zero bit_or max (λ b. b) refl (λ b. omega arith) bit_or_step a a (omega arith)

-- A mask of `k` low ones is the remainder.
pub bit_and_ones : (k a : ℕ) → a < 2 ^ k → bit_and a (2 ^ k - 1) ≡ a
bit_and_ones zero a h = let a0 : a ≡ 0 = omega arith in rw a0
bit_and_ones (suc k) a h =
    let m2 : (2 ^ suc k - 1) / 2 ≡ 2 ^ k - 1 = omega (arith, pow-suc 2 k, one-le-pow k 2) in
    let m1 : (2 ^ suc k - 1) % 2 ≡ 1 = omega (arith, pow-suc 2 k, one-le-pow k 2) in
    let ah : a / 2 < 2 ^ k = omega (arith, pow-suc 2 k) in
    bit_and_step a (2 ^ suc k - 1) ∙ rw (m2, m1, bit_and_ones k (a / 2) ah) (omega arith)

pub bit_and_mask : (k a : ℕ) → bit_and a (2 ^ k - 1) ≡ a % 2 ^ k
bit_and_mask k a =
    let pos : 0 < 2 ^ k = one-le-pow k 2 (omega arith) in
    let low : a % 2 ^ k < 2 ^ k = mod-lt a pos in
    let parts : a / 2 ^ k * 2 ^ k + a % 2 ^ k ≡ a = div-add-mod' a (2 ^ k) in
    ap₂ bit_and (sym parts) (omega arith)
    ∙ bit_and_split k (a / 2 ^ k) 0 (a % 2 ^ k) (2 ^ k - 1) low (omega arith)
    ∙ rw (bit_and-zero, bit_and_ones k (a % 2 ^ k) low) (omega arith)

-- Disjoint fields.
pub bit_or_fields : (k q r : ℕ) → r < 2 ^ k → bit_or (q * 2 ^ k) r ≡ q * 2 ^ k + r
bit_or_fields k q r h =
    let pos : 0 < 2 ^ k = one-le-pow k 2 (omega arith) in
    ap₂ bit_or (omega arith) (omega arith)
    ∙ bit_or_split k q 0 0 r pos h
    ∙ rw (bit_or-zero, zero-bit_or) refl

pub bit_or_low : (k q r : ℕ) → r < 2 ^ k → bit_or r (q * 2 ^ k) ≡ r + q * 2 ^ k
bit_or_low k q r h =
    let pos : 0 < 2 ^ k = one-le-pow k 2 (omega arith) in
    ap₂ bit_or (omega arith) (omega arith)
    ∙ bit_or_split k 0 q r 0 h pos
    ∙ rw (zero-bit_or, bit_or-zero) (omega arith)
