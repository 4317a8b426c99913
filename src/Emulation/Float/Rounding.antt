-- ===== src/Emulation/Float/Rounding.antt =====
-- SETUP_STATIC_ROUNDING (bbl/mtrap.h), the table of `emulate_fp`, and the fused multiply-adds.
pub mod Mode
use lowrisc_kc.Base.{
  ℕ, zero, suc, ◌+◌, ◌-◌, ◌*◌, ◌/◌, ◌%◌, ◌^◌, Bool, Option, none, some, bit_and, bit_or,
  if◌then◌else◌, ltb, ◌==◌, u64,
}
use lowrisc_kc.Emulation.State.{
  Hart, Result, refused, get_f32, get_f64, get_precision, get_rm, set_f32_rd, set_f64_rd, next_insn,
}
use lowrisc_kc.Emulation.Csr.{fpu_off}
use lowrisc_kc.Emulation.Float.{
  SoftFloat, by_precision, put_f32, put_f64, emulate_fadd, emulate_fsub, emulate_fmul, emulate_fdiv,
  emulate_fsqrt, emulate_fsgnj, emulate_fmin, emulate_fcvt_ff, emulate_fcmp, emulate_fmv_if,
  emulate_fmv_fi,
}
use lowrisc_kc.Emulation.Float.Convert.{emulate_fcvt_fi, emulate_fcvt_if}

-- `tp` with the rounding mode of the instruction above fcsr; `none` is `return -1`.
unfoldable pub setup_static_rounding : ℕ → ℕ → Option ℕ
unfolding get_rm
setup_static_rounding insn tp =
    let fcsr = bit_and tp 0xff in
    if bit_and insn 0x7000 == 0x7000
    then some (bit_or fcsr (fcsr * 2 ^ 8))
    else if ltb 4 (get_rm insn)
    then none
    else some (bit_or fcsr (get_rm insn * 2 ^ 13))

-- `softfloat_roundingMode`.
unfoldable pub rounding_mode : ℕ → ℕ
rounding_mode tp = tp / 2 ^ 13

unfoldable pub with_rounding : (Hart → Result) → Hart → Option ℕ → Result
with_rounding f h none = refused h
with_rounding f h (some tp) = f (record h { tp = tp })

module _ (sf : SoftFloat) where
  -- The entry of `fp_emulation_table` at ((insn >> 25) & 0x7c) / 4.
  unfoldable pub fp_emulation : ℕ → ℕ → ℕ → Hart → Result
  unfolding emulate_fadd emulate_fsub emulate_fmul emulate_fdiv emulate_fsqrt emulate_fsgnj
      emulate_fmin emulate_fcvt_ff emulate_fcmp emulate_fmv_if emulate_fmv_fi emulate_fcvt_fi
      emulate_fcvt_if
  fp_emulation i insn mepc h =
      if i == 0
      then emulate_fadd sf insn mepc h
      else if i == 1
      then emulate_fsub sf insn mepc h
      else if i == 2
      then emulate_fmul sf insn mepc h
      else if i == 3
      then emulate_fdiv sf insn mepc h
      else if i == 4
      then emulate_fsgnj insn mepc h
      else if i == 5
      then emulate_fmin sf insn mepc h
      else if i == 8
      then emulate_fcvt_ff sf insn mepc h
      else if i == 11
      then emulate_fsqrt sf insn mepc h
      else if i == 20
      then emulate_fcmp sf insn mepc h
      else if i == 24
      then emulate_fcvt_if sf insn mepc h
      else if i == 26
      then emulate_fcvt_fi sf insn mepc h
      else if i == 28
      then emulate_fmv_if insn mepc h
      else if i == 30
      then emulate_fmv_fi insn mepc h
      else refused h

  unfoldable pub emulate_fp : ℕ → ℕ → ℕ → Hart → Result
  unfolding fpu_off setup_static_rounding with_rounding fp_emulation
  emulate_fp insn mstatus mepc h =
      if fpu_off mstatus
      then refused h
      else with_rounding (fp_emulation (bit_and (insn / 2 ^ 25) 0x7c / 4) insn mepc) h
          (setup_static_rounding insn h.tp)

  unfoldable pub mul_add : ℕ → ℕ → ℕ → Hart → Result
  unfolding get_precision get_f32 get_f64 set_f32_rd set_f64_rd next_insn
  mul_add op insn mepc h =
      by_precision insn h
        (put_f32 insn mepc h
          (sf.mul_add_f32 op h.tp (get_f32 insn 15 h) (get_f32 insn 20 h) (get_f32 insn 27 h)))
        (put_f64 insn mepc h
          (sf.mul_add_f64 op h.tp (get_f64 insn 15 h) (get_f64 insn 20 h) (get_f64 insn 27 h)))

  unfoldable pub emulate_any_fmadd : ℕ → ℕ → ℕ → ℕ → Hart → Result
  unfolding fpu_off setup_static_rounding with_rounding mul_add
  emulate_any_fmadd op insn mstatus mepc h =
      if fpu_off mstatus
      then refused h
      else with_rounding (mul_add op insn mepc) h (setup_static_rounding insn h.tp)

  -- softfloat_mulAdd_subC is 1 and softfloat_mulAdd_subProd is 2.
  unfoldable pub emulate_fmadd : ℕ → ℕ → ℕ → Hart → Result
  unfolding emulate_any_fmadd
  emulate_fmadd = emulate_any_fmadd 0

  unfoldable pub emulate_fmsub : ℕ → ℕ → ℕ → Hart → Result
  unfolding emulate_any_fmadd
  emulate_fmsub = emulate_any_fmadd 1

  unfoldable pub emulate_fnmadd : ℕ → ℕ → ℕ → Hart → Result
  unfolding emulate_any_fmadd
  emulate_fnmadd = emulate_any_fmadd 3

  unfoldable pub emulate_fnmsub : ℕ → ℕ → ℕ → Hart → Result
  unfolding emulate_any_fmadd
  emulate_fnmsub = emulate_any_fmadd 2
