-- ===== src/Emulation/Float.antt =====
-- The emulation of floating-point instructions in bbl/emulation.c, in a 64-bit build with no FPU.
-- The arithmetic is the library's under softfloat/, a parameter.
pub mod Access
pub mod Rounding
pub mod Sign
pub mod Convert
use lowrisc_kc.Base.{
  ℕ, ◌+◌, ◌-◌, ◌*◌, ◌/◌, ◌%◌, ◌^◌, Bool, true, false, not, ◌&&◌, ◌||◌, bit_and, bit_or, bit_xor,
  if◌then◌else◌, ltb, leb, ◌==◌, u32, u64,
}
use lowrisc_kc.Emulation.Encoding.{
  matches, mask_fmv, match_fmv_x_s, match_fmv_x_d, match_fmv_s_x, match_fmv_d_x,
}
use lowrisc_kc.Emulation.State.{
  Hart, Result, emulated, refused, get_rs1, get_f32, get_f64, get_precision, get_rm, set_rd,
  set_f32_rd, set_f64_rd, next_insn, sign_extend32,
}
use lowrisc_kc.Emulation.Csr.{fpu_off, raise_flags}

-- A result, and `tp` with the flags that the operation raised.
abbrev pub Flagged : Type 0 → Type 0
Flagged A = A × ℕ

-- The operations of softfloat/ that the emulation calls; each is given `tp` first, from which it
-- takes the rounding mode.
pub record SoftFloat : Type 0 where
  pub f32_add : ℕ → ℕ → ℕ → Flagged ℕ
  pub f64_add : ℕ → ℕ → ℕ → Flagged ℕ
  pub f32_mul : ℕ → ℕ → ℕ → Flagged ℕ
  pub f64_mul : ℕ → ℕ → ℕ → Flagged ℕ
  pub f32_div : ℕ → ℕ → ℕ → Flagged ℕ
  pub f64_div : ℕ → ℕ → ℕ → Flagged ℕ
  pub f32_sqrt : ℕ → ℕ → Flagged ℕ
  pub f64_sqrt : ℕ → ℕ → Flagged ℕ
  pub f32_lt_quiet : ℕ → ℕ → ℕ → Flagged Bool
  pub f64_lt_quiet : ℕ → ℕ → ℕ → Flagged Bool
  pub f32_eq : ℕ → ℕ → ℕ → Flagged Bool
  pub f64_eq : ℕ → ℕ → ℕ → Flagged Bool
  pub f32_lt : ℕ → ℕ → ℕ → Flagged Bool
  pub f64_lt : ℕ → ℕ → ℕ → Flagged Bool
  pub f32_to_f64 : ℕ → ℕ → Flagged ℕ
  pub f64_to_f32 : ℕ → ℕ → Flagged ℕ
  pub ui64_to_f64 : ℕ → ℕ → Flagged ℕ
  pub f64_to_ui64 : ℕ → ℕ → Flagged ℕ
  pub mul_add_f32 : ℕ → ℕ → ℕ → ℕ → ℕ → Flagged ℕ
  pub mul_add_f64 : ℕ → ℕ → ℕ → ℕ → ℕ → Flagged ℕ
  pub is_nan_f32 : ℕ → Bool
  pub is_nan_f64 : ℕ → Bool

-- GET_PRECISION chooses; any other precision is `return -1`.
abbrev pub by_precision : ℕ → Hart → Result → Result → Result
by_precision insn h single double =
    if get_precision insn == 0
    then single
    else if get_precision insn == 1
    then double
    else refused h

abbrev pub put_f32 : ℕ → ℕ → Hart → Flagged ℕ → Result
put_f32 insn mepc h (v, tp) = emulated (next_insn mepc (set_f32_rd insn (record h { tp = tp }) v))

abbrev pub put_f64 : ℕ → ℕ → Hart → Flagged ℕ → Result
put_f64 insn mepc h (v, tp) = emulated (next_insn mepc (set_f64_rd insn (record h { tp = tp }) v))

abbrev pub put_int : ℕ → ℕ → Hart → Flagged ℕ → Result
put_int insn mepc h (v, tp) = emulated (next_insn mepc (set_rd insn (record h { tp = tp }) v))

abbrev pub from_bool : Bool → ℕ
from_bool b = if b then 1 else 0

module _ (sf : SoftFloat) where
  -- `neg_b` is XORed into the second operand, shifted for a double.
  unfoldable pub emulate_any_fadd : ℕ → ℕ → ℕ → Hart → Result
  unfolding get_precision get_f32 get_f64 set_f32_rd set_f64_rd next_insn
  emulate_any_fadd neg_b insn mepc h =
      by_precision insn h
        (put_f32 insn mepc h
          (sf.f32_add h.tp (get_f32 insn 15 h) (u32 (bit_xor (get_f32 insn 20 h) neg_b))))
        (put_f64 insn mepc h (
          sf.f64_add h.tp (get_f64 insn 15 h) (bit_xor (get_f64 insn 20 h) (u64 (neg_b * 2 ^ 32)))))

  unfoldable pub emulate_fadd : ℕ → ℕ → Hart → Result
  unfolding emulate_any_fadd
  emulate_fadd = emulate_any_fadd 0

  -- INT32_MIN, converted to `uintptr_t`.
  unfoldable pub emulate_fsub : ℕ → ℕ → Hart → Result
  unfolding emulate_any_fadd
  emulate_fsub = emulate_any_fadd (2 ^ 64 - 2 ^ 31)

  unfoldable pub emulate_fmul : ℕ → ℕ → Hart → Result
  unfolding get_precision get_f32 get_f64 set_f32_rd set_f64_rd next_insn
  emulate_fmul insn mepc h =
      by_precision insn h
        (put_f32 insn mepc h (sf.f32_mul h.tp (get_f32 insn 15 h) (get_f32 insn 20 h)))
        (put_f64 insn mepc h (sf.f64_mul h.tp (get_f64 insn 15 h) (get_f64 insn 20 h)))

  unfoldable pub emulate_fdiv : ℕ → ℕ → Hart → Result
  unfolding get_precision get_f32 get_f64 set_f32_rd set_f64_rd next_insn
  emulate_fdiv insn mepc h =
      by_precision insn h
        (put_f32 insn mepc h (sf.f32_div h.tp (get_f32 insn 15 h) (get_f32 insn 20 h)))
        (put_f64 insn mepc h (sf.f64_div h.tp (get_f64 insn 15 h) (get_f64 insn 20 h)))

  unfoldable pub emulate_fsqrt : ℕ → ℕ → Hart → Result
  unfolding get_precision get_f32 get_f64 set_f32_rd set_f64_rd next_insn
  emulate_fsqrt insn mepc h =
      if bit_and (insn / 2 ^ 20) 0x1f == 0
      then by_precision insn h (put_f32 insn mepc h (sf.f32_sqrt h.tp (get_f32 insn 15 h)))
          (put_f64 insn mepc h (sf.f64_sqrt h.tp (get_f64 insn 15 h)))
      else refused h

-- DO_FSGNJ on words of `w` bits.
unfoldable pub do_fsgnj : ℕ → ℕ → ℕ → ℕ → ℕ
do_fsgnj w rs1 rs2 rm =
    let rs1_sign = rs1 / 2 ^ (w - 1) in
    let rs2_sign = rs2 / 2 ^ (w - 1) in
    let sign = bit_xor (bit_and rs1_sign (rm / 2)) (bit_xor rm rs2_sign) in
    bit_or (rs1 * 2 % 2 ^ w / 2) (sign * 2 ^ (w - 1) % 2 ^ w)

unfoldable pub emulate_fsgnj : ℕ → ℕ → Hart → Result
unfolding get_precision get_rm get_f32 get_f64 set_f32_rd set_f64_rd next_insn do_fsgnj
emulate_fsgnj insn mepc h =
    let rm = get_rm insn in
    if leb 3 rm
    then refused h
    else by_precision insn h
        (put_f32 insn mepc h (do_fsgnj 32 (get_f32 insn 15 h) (get_f32 insn 20 h) rm, h.tp))
        (put_f64 insn mepc h (do_fsgnj 64 (get_f64 insn 15 h) (get_f64 insn 20 h) rm, h.tp))

-- The choice of FMIN and FMAX: `use_rs1 = lt(arg1, arg2) || isNaN(rs2)`.
unfoldable pub min_max : (ℕ → ℕ → ℕ → Flagged Bool) → (ℕ → Bool) → ℕ → ℕ → ℕ → ℕ → Flagged ℕ
min_max lt is_nan rm tp rs1 rs2 =
    let (less, tp') = if rm == 0 then lt tp rs1 rs2 else lt tp rs2 rs1 in
    (if less || is_nan rs2 then rs1 else rs2, tp')

module _ (sf : SoftFloat) where
  unfoldable pub emulate_fmin : ℕ → ℕ → Hart → Result
  unfolding get_precision get_rm get_f32 get_f64 set_f32_rd set_f64_rd next_insn min_max
  emulate_fmin insn mepc h =
      let rm = get_rm insn in
      if leb 2 rm
      then refused h
      else by_precision insn h
          (put_f32 insn mepc h
            (min_max sf.f32_lt_quiet sf.is_nan_f32 rm h.tp (get_f32 insn 15 h) (get_f32 insn 20 h)))
          (put_f64 insn mepc h
            (min_max sf.f64_lt_quiet sf.is_nan_f64 rm h.tp (get_f64 insn 15 h) (get_f64 insn 20 h)))

  unfoldable pub emulate_fcvt_ff : ℕ → ℕ → Hart → Result
  unfolding get_precision get_f32 get_f64 set_f32_rd set_f64_rd next_insn
  emulate_fcvt_ff insn mepc h =
      let rs2_num = bit_and (insn / 2 ^ 20) 0x1f in
      by_precision insn h
        (if rs2_num == 1
          then put_f32 insn mepc h (sf.f64_to_f32 h.tp (get_f64 insn 15 h))
          else refused h)
        (if rs2_num == 0
          then put_f64 insn mepc h (sf.f32_to_f64 h.tp (get_f32 insn 15 h))
          else refused h)

-- FLE, FLT and FEQ by `rm` 0, 1 and 2.
unfoldable pub compare_floats : (eq lt : ℕ → ℕ → ℕ → Flagged Bool) → ℕ → ℕ → ℕ → ℕ → Flagged ℕ
compare_floats eq lt rm tp rs1 rs2 =
    let (less, lt_tp) = lt tp rs1 rs2 in
    let (same, eq_tp) = eq tp rs1 rs2 in
    let (less', both_tp) = lt eq_tp rs1 rs2 in
    if rm == 1
    then (from_bool less, lt_tp)
    else if rm == 0 && not same
    then (from_bool less', both_tp)
    else (from_bool same, eq_tp)

module _ (sf : SoftFloat) where
  unfoldable pub emulate_fcmp : ℕ → ℕ → Hart → Result
  unfolding get_precision get_rm get_f32 get_f64 set_rd next_insn compare_floats
  emulate_fcmp insn mepc h =
      let rm = get_rm insn in
      if leb 3 rm
      then refused h
      else by_precision insn h
          (put_int insn mepc h
            (compare_floats sf.f32_eq sf.f32_lt rm h.tp (get_f32 insn 15 h) (get_f32 insn 20 h)))
          (put_int insn mepc h
            (compare_floats sf.f64_eq sf.f64_lt rm h.tp (get_f64 insn 15 h) (get_f64 insn 20 h)))

unfoldable pub emulate_fmv_if : ℕ → ℕ → Hart → Result
unfolding get_f32 get_f64 set_rd next_insn sign_extend32
emulate_fmv_if insn mepc h =
    if matches insn mask_fmv match_fmv_x_s
    then put_int insn mepc h (sign_extend32 (get_f32 insn 15 h), h.tp)
    else if matches insn mask_fmv match_fmv_x_d
    then put_int insn mepc h (get_f64 insn 15 h, h.tp)
    else refused h

unfoldable pub emulate_fmv_fi : ℕ → ℕ → Hart → Result
unfolding get_rs1 set_f32_rd set_f64_rd next_insn
emulate_fmv_fi insn mepc h =
    if matches insn mask_fmv match_fmv_s_x
    then put_f32 insn mepc h (get_rs1 insn h, h.tp)
    else if matches insn mask_fmv match_fmv_d_x
    then put_f64 insn mepc h (get_rs1 insn h, h.tp)
    else refused h
