-- ===== src/Emulation/Float/Rounding/Mode.antt =====
-- Which rounding mode the library is handed.
use lowrisc_kc.Base.{
  ℕ, ◌+◌, ◌*◌, ◌/◌, ◌%◌, ◌^◌, ◌<◌, ◌≡◌, none, some, bit_or, arith, if◌then◌else◌, ltb, ◌==◌,
}
use mathlib.Core.Option
use lowrisc_kc.Base.Bits.{bit_and_mask, bit_or_low}
use lowrisc_kc.Emulation.State.{get_rm}
use lowrisc_kc.Emulation.Decode.{bit_and_field}
use lowrisc_kc.Emulation.Float.Rounding.{setup_static_rounding, rounding_mode}

get_rm_lem : (insn : ℕ) → get_rm insn ≡ insn / 2 ^ 12 % 8
unfolding get_rm
get_rm_lem insn = bit_and_mask 3 (insn / 2 ^ 12)

dynamic_or : (fcsr : ℕ) → fcsr < 2 ^ 8 → bit_or fcsr (fcsr * 2 ^ 8) ≡ fcsr + fcsr * 256
dynamic_or fcsr h = bit_or_low 8 fcsr fcsr h

static_or : (fcsr rm : ℕ) → fcsr < 2 ^ 8 → bit_or fcsr (rm * 2 ^ 13) ≡ fcsr + rm * 8192
static_or fcsr rm h = bit_or_low 13 rm fcsr (omega arith)

closed_form :
    (insn tp : ℕ)
    → setup_static_rounding insn tp ≡ (
        if insn / 2 ^ 12 % 8 == 7
        then some (tp % 256 + tp % 256 * 256)
        else if ltb 4 (insn / 2 ^ 12 % 8)
        then none
        else some (tp % 256 + insn / 2 ^ 12 % 8 * 8192))
unfolding setup_static_rounding
closed_form insn tp = ground (
  arith,
  bit_and_field 12 3 insn,
  bit_and_mask 8 tp,
  get_rm_lem insn,
  dynamic_or (tp % 256),
  static_or (tp % 256) (insn / 2 ^ 12 % 8),
)

-- The rounding mode and the fcsr byte that the library finds in `tp`: with funct3 7 the mode is
-- frm, with funct3 up to 4 it is funct3, and 5 and 6 are refused; fcsr stays what it was.
pub setup_static_rounding_mode :
    (insn tp : ℕ)
    → let rm = insn / 2 ^ 12 % 8 in
      let fcsr = tp % 256 in
      Option.map {B = ℕ × ℕ} (λ t. (rounding_mode t, t % 256)) (setup_static_rounding insn tp)
      ≡ (if rm == 7 then some (fcsr / 32, fcsr) else if ltb 4 rm then none else some (rm, fcsr))
unfolding rounding_mode
setup_static_rounding_mode insn tp = rw (closed_form insn tp) (ground arith)
