-- ===== src/Emulation/Trap.antt =====
-- `illegal_insn_trap` of bbl/mtrap.c: the fetch of the instruction and the table of routines.
pub mod Fetched
use lowrisc_kc.Base.{ℕ, ◌+◌, ◌-◌, ◌*◌, ◌/◌, ◌%◌, ◌^◌, Bool, not, bit_and, if◌then◌else◌, ◌==◌}
use lowrisc_kc.Emulation.State.{Hart, Result, refused}
use lowrisc_kc.Emulation.Memory.{Clobber, with_insn}
use lowrisc_kc.Emulation.MulDiv.{emulate_mul_div, emulate_mul_div32}
use lowrisc_kc.Emulation.Csr.{emulate_system}
use lowrisc_kc.Emulation.Float.{SoftFloat}
use lowrisc_kc.Emulation.Float.Access.{emulate_float_load, emulate_float_store}
use lowrisc_kc.Emulation.Float.Rounding.{
  emulate_fp, emulate_fmadd, emulate_fmsub, emulate_fnmadd, emulate_fnmsub,
}

unfoldable pub truly_illegal_insn : Hart → Result
truly_illegal_insn h = refused h

module _ (sf : SoftFloat) (c : Clobber) where
  -- The entry of `illegal_insn_trap_table` at (insn & 0x7c) / 4, called.
  unfoldable pub emulate : ℕ → ℕ → ℕ → ℕ → Hart → Result
  unfolding truly_illegal_insn emulate_float_load emulate_float_store emulate_mul_div
      emulate_mul_div32 emulate_fmadd emulate_fmsub emulate_fnmsub emulate_fnmadd emulate_fp
      emulate_system
  emulate i insn mstatus mepc h =
      if i == 1
      then emulate_float_load c insn mstatus mepc h
      else if i == 9
      then emulate_float_store c insn mstatus mepc h
      else if i == 12
      then emulate_mul_div insn mepc h
      else if i == 14
      then emulate_mul_div32 insn mepc h
      else if i == 16
      then emulate_fmadd sf insn mstatus mepc h
      else if i == 17
      then emulate_fmsub sf insn mstatus mepc h
      else if i == 18
      then emulate_fnmsub sf insn mstatus mepc h
      else if i == 19
      then emulate_fnmadd sf insn mstatus mepc h
      else if i == 20
      then emulate_fp sf insn mstatus mepc h
      else if i == 28
      then emulate_system insn mstatus mepc h
      else truly_illegal_insn h

  unfoldable pub emulate_insn : Hart → ℕ → Result
  unfolding emulate
  emulate_insn h insn =
      if bit_and insn 3 == 3
      then emulate (bit_and insn 0x7c / 4) insn h.mstatus h.mepc h
      else refused h

  unfoldable pub illegal_insn_trap : Hart → Result
  unfolding with_insn emulate_insn
  illegal_insn_trap h = with_insn c (emulate_insn h) h
