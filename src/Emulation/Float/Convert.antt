-- ===== src/Emulation/Float/Convert.antt =====
-- `emulate_fcvt_fi` and `emulate_fcvt_if` of bbl/emulation.c: conversions between integers and
-- floats. The sign is taken off before the library converts the magnitude.
pub mod Limits
pub mod Clipping
use lowrisc_kc.Base.{
  ℕ, ◌+◌, ◌-◌, ◌*◌, ◌/◌, ◌%◌, ◌^◌, Bool, true, false, Option, none, some, bit_and, bit_xor,
  if◌then◌else◌, ltb, leb, ◌==◌, u32, u64,
}
use lowrisc_kc.Emulation.State.{
  Hart, Result, emulated, refused, undefined, get_rs1, get_f32, get_f64, get_precision, set_rd,
  set_f32_rd, set_f64_rd, set_fs_dirty, next_insn, sign_extend32,
}
use lowrisc_kc.Emulation.Csr.{raise_flags}
use lowrisc_kc.Emulation.Float.{SoftFloat, Flagged, put_f32, put_f64}

-- A magnitude and whether it stands for a negative number.
pub record Magnitude : Type 0 where
  pub negative : Bool
  pub uint_val : ℕ

-- What the switch of `emulate_fcvt_fi` makes of the source register; negating INT32_MIN overflows.
pub data Source : Type 0 where
  source : Magnitude → Source
  illegal : Source
  overflow : Source

unfoldable pub int_source : ℕ → ℕ → Source
int_source kind val =
    let word = u32 val in
    if kind == 0
    then if ltb word (2 ^ 31)
      then source (record { negative = false; uint_val = word })
      else if word == 2 ^ 31
      then overflow
      else source (record { negative = true; uint_val = 2 ^ 32 - word })
    else if kind == 1
    then source (record { negative = false; uint_val = word })
    else if kind == 2
    then if ltb val (2 ^ 63)
      then source (record { negative = false; uint_val = val })
      else source (record { negative = true; uint_val = 2 ^ 64 - val })
    else if kind == 3
    then source (record { negative = false; uint_val = val })
    else illegal

-- `float64 ^= INT64_MIN` for a negative number.
unfoldable pub flip_sign : Bool → ℕ → ℕ
flip_sign negative float64 = if negative then bit_xor float64 (2 ^ 63) else float64

module _ (sf : SoftFloat) where
  unfoldable pub float_of_source : ℕ → ℕ → Hart → Source → Result
  unfolding get_precision flip_sign set_f32_rd set_f64_rd next_insn
  float_of_source insn mepc h illegal = refused h
  float_of_source insn mepc h overflow = undefined
  float_of_source insn mepc h (source m) =
      let (converted, tp) = sf.ui64_to_f64 h.tp m.uint_val in
      let float64 = flip_sign m.negative converted in
      if get_precision insn == 0
      then put_f32 insn mepc h (sf.f64_to_f32 tp float64)
      else put_f64 insn mepc h (float64, tp)

  unfoldable pub emulate_fcvt_fi : ℕ → ℕ → Hart → Result
  unfolding int_source float_of_source get_precision get_rs1
  emulate_fcvt_fi insn mepc h =
      if leb 2 (get_precision insn)
      then refused h
      else float_of_source insn mepc h (int_source (bit_and (insn / 2 ^ 20) 0x1f) (get_rs1 insn h))

-- The four cases of `emulate_fcvt_if`.
pub record Range : Type 0 where
  pub result : ℕ
  pub limit : ℕ
  pub limit_result : ℕ

unfoldable pub range : ℕ → Magnitude → Range
range kind m =
    let u = m.uint_val in
    if kind == 0
    then if m.negative
      then record {
        result = sign_extend32 (u32 (2 ^ 64 - u));
        limit = 2 ^ 31;
        limit_result = 2 ^ 31;
      }
      else record { result = sign_extend32 (u32 u); limit = 2 ^ 31 - 1; limit_result = 2 ^ 31 - 1 }
    else if kind == 1
    then if m.negative
      then record { result = 0; limit = 0; limit_result = 2 ^ 32 - 1 }
      else record { result = u32 u; limit = 2 ^ 32 - 1; limit_result = 2 ^ 32 - 1 }
    else if kind == 2
    then if m.negative
      then record { result = u64 (2 ^ 64 - u); limit = 2 ^ 63; limit_result = 2 ^ 63 }
      else record { result = u; limit = 2 ^ 63 - 1; limit_result = 2 ^ 63 - 1 }
    else if m.negative
    then record { result = 0; limit = 0; limit_result = 2 ^ 64 - 1 }
    else record { result = u; limit = 2 ^ 64 - 1; limit_result = 2 ^ 64 - 1 }

-- The value, and whether the invalid flag is raised.
unfoldable pub saturate : ℕ → Magnitude → ℕ × Bool
unfolding range sign_extend32
saturate kind m =
    let r = range kind m in
    if ltb r.limit m.uint_val then (r.limit_result, true) else (r.result, false)

abbrev pub flag_invalid : ℕ
flag_invalid = 16

-- The double that the source register holds or extends to; `none` is `return -1`.
module _ (sf : SoftFloat) where
  unfoldable pub float_source : ℕ → Hart → Option (Flagged ℕ)
  unfolding get_precision get_f32 get_f64
  float_source insn h =
      if get_precision insn == 0
      then some (sf.f32_to_f64 h.tp (get_f32 insn 15 h))
      else if get_precision insn == 1
      then some (get_f64 insn 15 h, h.tp)
      else none

  unfoldable pub int_of_float : ℕ → ℕ → Hart → Option (Flagged ℕ) → Result
  unfolding saturate raise_flags set_fs_dirty set_rd next_insn
  int_of_float insn mepc h none = refused h
  int_of_float insn mepc h (some (float64, tp)) =
      let negative = leb (2 ^ 63) float64 in
      let magnitude = if negative then bit_xor float64 (2 ^ 63) else float64 in
      let (uint_val, tp') = sf.f64_to_ui64 tp magnitude in
      let (result, invalid) =
        saturate (bit_and (insn / 2 ^ 20) 0x1f)
          (record { negative = negative; uint_val = uint_val }) in
      let h' = record h { tp = tp' } in
      let h'' = if invalid then raise_flags flag_invalid h' else h' in
      emulated (next_insn mepc (set_rd insn (set_fs_dirty h'') result))

  unfoldable pub emulate_fcvt_if : ℕ → ℕ → Hart → Result
  unfolding float_source int_of_float
  emulate_fcvt_if insn mepc h =
      if leb 4 (bit_and (insn / 2 ^ 20) 0x1f)
      then refused h
      else int_of_float insn mepc h (float_source insn h)
