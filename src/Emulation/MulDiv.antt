-- ===== src/Emulation/MulDiv.antt =====
-- `emulate_mul_div` and `emulate_mul_div32` of bbl/emulation.c, in a 64-bit build. The divisions
-- are those of C: by zero, and of the least number by -1, they are undefined.
pub mod Dispatch
pub mod High
pub mod Quotient
use lowrisc_kc.Base.{
  ℕ, ◌+◌, ◌-◌, ◌*◌, ◌/◌, ◌%◌, ◌^◌, Bool, not, ◌&&◌, ltb, ◌==◌, if◌then◌else◌, u32, u64,
}
use lowrisc_kc.Emulation.Encoding.{
  matches, mask_mul, match_mul, match_mulh, match_mulhsu, match_mulhu, match_div, match_divu,
  match_rem, match_remu, match_mulw,
}
use lowrisc_kc.Emulation.State.{
  Hart, Result, emulated, refused, undefined, get_rs1, get_rs2, set_rd, next_insn, sign_extend32,
}

-- What the tests on the instruction choose: a value for rd, `return -1`, or undefined behaviour.
pub data Value : Type 0 where
  value : ℕ → Value
  illegal : Value
  undef : Value

-- The sign and the magnitude of a two's complement word of `w` bits.
unfoldable pub is_negative : ℕ → ℕ → Bool
is_negative w x = ltb (2 ^ (w - 1) - 1) x

unfoldable pub magnitude : ℕ → ℕ → ℕ
unfolding is_negative
magnitude w x = if is_negative w x then 2 ^ w - x else x

unfoldable pub with_sign : ℕ → Bool → ℕ → ℕ
with_sign w negative x = if negative then (2 ^ w - x) % 2 ^ w else x

-- Where C's signed division is undefined.
unfoldable pub overflows : ℕ → ℕ → ℕ → Bool
overflows w a b = a == 2 ^ (w - 1) && b == 2 ^ w - 1

-- (intN_t)a / (intN_t)b and (intN_t)a % (intN_t)b, which round towards zero.
unfoldable pub signed_div : ℕ → ℕ → ℕ → Value
unfolding is_negative magnitude with_sign overflows
signed_div w a b =
    if b == 0
    then undef
    else if overflows w a b
    then undef
    else value (
        with_sign w (if is_negative w a then not (is_negative w b) else is_negative w b)
          (magnitude w a / magnitude w b))

unfoldable pub signed_rem : ℕ → ℕ → ℕ → Value
unfolding is_negative magnitude with_sign overflows
signed_rem w a b =
    if b == 0
    then undef
    else if overflows w a b
    then undef
    else value (with_sign w (is_negative w a) (magnitude w a % magnitude w b))

unfoldable pub unsigned_div : ℕ → ℕ → Value
unsigned_div a b = if b == 0 then undef else value (a / b)

unfoldable pub unsigned_rem : ℕ → ℕ → Value
unsigned_rem a b = if b == 0 then undef else value (a % b)

-- (double_int)(intptr_t)x, as a 128-bit pattern; (double_int)x of an unsigned word is `x`.
unfoldable pub sign_extend128 : ℕ → ℕ
unfolding is_negative
sign_extend128 x = if is_negative 64 x then 2 ^ 128 - 2 ^ 64 + x else x

-- (a * b) >> 64 of double_int, stored into a word. The product of MULHU may overflow its type, which
-- C leaves undefined; it wraps around here.
unfoldable pub high_word : ℕ → ℕ → ℕ
high_word a b = a * b % 2 ^ 128 / 2 ^ 64

unfoldable pub mul_div_value : ℕ → ℕ → ℕ → Value
mul_div_value insn rs1 rs2 =
    if matches insn mask_mul match_mul
    then value (u64 (rs1 * rs2))
    else if matches insn mask_mul match_div
    then signed_div 64 rs1 rs2
    else if matches insn mask_mul match_divu
    then unsigned_div rs1 rs2
    else if matches insn mask_mul match_rem
    then signed_rem 64 rs1 rs2
    else if matches insn mask_mul match_remu
    then unsigned_rem rs1 rs2
    else if matches insn mask_mul match_mulh
    then value (high_word (sign_extend128 rs1) (sign_extend128 rs2))
    else if matches insn mask_mul match_mulhu
    then value (high_word rs1 rs2)
    else if matches insn mask_mul match_mulhsu
    then value (high_word (sign_extend128 rs1) rs2)
    else illegal

-- `SET_RD(insn, regs, val); write_csr(mepc, mepc + 4); return 0;` after the tests.
unfoldable pub retire : ℕ → ℕ → Value → Hart → Result
unfolding set_rd next_insn
retire insn mepc (value v) h = emulated (next_insn mepc (set_rd insn h v))
retire insn mepc illegal h = refused h
retire insn mepc undef h = undefined

unfoldable pub emulate_mul_div : ℕ → ℕ → Hart → Result
unfolding mul_div_value retire get_rs1 get_rs2
emulate_mul_div insn mepc h =
    retire insn mepc (mul_div_value insn (get_rs1 insn h) (get_rs2 insn h)) h

unfoldable pub int32_value : Value → Value
unfolding sign_extend32
int32_value (value v) = value (sign_extend32 v)
int32_value illegal = illegal
int32_value undef = undef

-- The tests as they stand: but for the first they compare with the values of the 64-bit
-- instructions.
unfoldable pub mul_div32_value : ℕ → ℕ → ℕ → Value
mul_div32_value insn rs1 rs2 =
    if matches insn mask_mul match_mulw
    then value (u32 (rs1 * rs2))
    else if matches insn mask_mul match_div
    then signed_div 32 rs1 rs2
    else if matches insn mask_mul match_divu
    then unsigned_div rs1 rs2
    else if matches insn mask_mul match_rem
    then signed_rem 32 rs1 rs2
    else if matches insn mask_mul match_remu
    then unsigned_rem rs1 rs2
    else illegal

unfoldable pub emulate_mul_div32 : ℕ → ℕ → Hart → Result
unfolding mul_div32_value retire int32_value get_rs1 get_rs2
emulate_mul_div32 insn mepc h =
    retire insn mepc
      (int32_value (mul_div32_value insn (u32 (get_rs1 insn h)) (u32 (get_rs2 insn h)))) h
