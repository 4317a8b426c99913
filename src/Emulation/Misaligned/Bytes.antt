-- ===== src/Emulation/Misaligned/Bytes.antt =====
-- Loads and stores as little-endian numbers over the bytes of memory.
use lowrisc_kc.Base.{ℕ, zero, suc, ◌+◌, ◌*◌, ◌^◌, ◌≤◌, ◌<◌, ◌≡◌, refl, ap, ◌∙◌, some, arith, u64}
use lowrisc_kc.Emulation.State.{Hart}
use lowrisc_kc.Emulation.Memory.{load}

-- The number in `n` bytes from `i`, least significant first.
abbrev pub little_endian : ℕ → (ℕ → ℕ) → ℕ → ℕ
little_endian zero f i = 0
little_endian (suc n) f i = f i + 256 * little_endian n f (i + 1)

-- `len` bytes of memory from `base` can be read, and hold `f`.
pub record Holds (h : Hart) (base len : ℕ) (f : ℕ → ℕ) : Type 0 where
  pub within : base + len ≤ 2 ^ 64
  pub bytes : (i : ℕ) → i < len → h.mem (base + i) ≡ some (f i)
  pub small : (i : ℕ) → f i < 256

pub load-suc :
    (n addr b v : ℕ) (h : Hart)
    → h.mem addr ≡ some b
    → load n (u64 (addr + 1)) h ≡ some v
    → load (suc n) addr h ≡ some (b + 256 * v)
unfolding load
load-suc n addr b v h eb ev = rw (eb, ev) refl

pub load-Holds :
    {h : Hart} {base len : ℕ} {f : ℕ → ℕ} (n i : ℕ)
    → Holds h base len f
    → i + n ≤ len
    → load n (base + i) h ≡ some (little_endian n f i)
unfolding load
load-Holds zero i holds fits = refl
load-Holds {h} {base} {f} (suc zero) i holds fits =
    load-suc 0 (base + i) (f i) 0 h (holds.bytes i (omega arith)) refl
load-Holds {h} {base} {f} (suc (suc n)) i holds fits =
    load-suc (suc n) (base + i) (f i) (little_endian (suc n) f (i + 1)) h
      (holds.bytes i (omega arith))
      (ap (λ (t : ℕ). load (suc n) t h) (omega arith)
        ∙ load-Holds (suc n) (i + 1) holds (omega arith))
