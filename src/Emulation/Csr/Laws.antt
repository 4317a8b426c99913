-- ===== src/Emulation/Csr/Laws.antt =====
-- The three registers frm, fflags and fcsr are views of one byte.
use lowrisc_kc.Base.{ℕ, ◌+◌, ◌*◌, ◌%◌, ◌^◌, ◌<◌, ◌≡◌, ◌∙◌, bit_and, arith, u64}
use lowrisc_kc.Base.Bits.{bit_and_mask, bit_or_fields, bit_or_low}
use lowrisc_kc.Emulation.State.{Hart}
use lowrisc_kc.Emulation.Csr.{get_fcsr, set_fcsr, get_frm, set_frm, get_fflags, set_fflags}

get_fcsr-lt : (h : Hart) → get_fcsr h < 256
unfolding get_fcsr
get_fcsr-lt h = omega (arith, bit_and_mask 8 h.tp)

pub get_fcsr-set_fcsr : (v : ℕ) (h : Hart) → get_fcsr (set_fcsr v h) ≡ v % 256
unfolding get_fcsr set_fcsr
get_fcsr-set_fcsr v h = omega (arith, bit_and_mask 8 v, bit_and_mask 8 (bit_and v 0xff))

pub fcsr_fields :
    (h : Hart)
    → (get_fcsr h ≡ get_frm h * 32 + get_fflags h) × (get_frm h < 8) × (get_fflags h < 32)
unfolding get_frm get_fflags
fcsr_fields h = omega (arith, get_fcsr-lt h, bit_and_mask 5 (get_fcsr h))

fcsr-set_frm : (v : ℕ) (h : Hart) → get_fcsr (set_frm v h) ≡ get_fflags h + v % 8 * 32
unfolding set_frm
fcsr-set_frm v h =
    let flags = fcsr_fields h in
    let shifted : u64 (v * 2 ^ 5) ≡ v % 2 ^ 59 * 2 ^ 5 = omega arith in
    get_fcsr-set_fcsr _ h
    ∙ rw shifted (omega (arith, flags, bit_or_low 5 (v % 2 ^ 59) (get_fflags h) flags.2))

fcsr-set_fflags : (v : ℕ) (h : Hart) → get_fcsr (set_fflags v h) ≡ get_frm h * 32 + v % 32
unfolding set_fflags
fcsr-set_fflags v h =
    get_fcsr-set_fcsr _ h
    ∙ rw (bit_and_mask 5 v)
        (omega (arith, fcsr_fields h, bit_or_fields 5 (get_frm h) (v % 32) (omega arith)))

-- Writing the rounding mode keeps the low three bits of the value and every flag; writing the
-- flags keeps the low five bits of the value and the rounding mode.
pub set_frm-set_fflags_fields :
    (v : ℕ) (h : Hart)
    → (get_frm (set_frm v h) ≡ v % 8)
      × (get_fflags (set_frm v h) ≡ get_fflags h)
      × (get_frm (set_fflags v h) ≡ get_frm h)
      × (get_fflags (set_fflags v h) ≡ v % 32)
set_frm-set_fflags_fields v h = (
  omega (arith, fcsr_fields (set_frm v h), fcsr-set_frm v h, fcsr_fields h),
  omega (arith, fcsr_fields (set_frm v h), fcsr-set_frm v h, fcsr_fields h),
  omega (arith, fcsr_fields (set_fflags v h), fcsr-set_fflags v h, fcsr_fields h),
  omega (arith, fcsr_fields (set_fflags v h), fcsr-set_fflags v h, fcsr_fields h),
)
