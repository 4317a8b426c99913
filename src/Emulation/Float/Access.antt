-- ===== src/Emulation/Float/Access.antt =====
-- `emulate_float_load` and `emulate_float_store` of bbl/emulation.c, in a 64-bit build.
use lowrisc_kc.Base.{ℕ, ◌+◌, ◌%◌, bit_and, if◌then◌else◌, ◌==◌, u64}
use lowrisc_kc.Emulation.Encoding.{match_flw, match_fld, match_fsw, match_fsd}
use lowrisc_kc.Emulation.State.{
  Hart, Result, get_rs1, get_f32, get_f64, set_f32_rd, set_f64_rd, imm_i, imm_s,
}
use lowrisc_kc.Emulation.Memory.{Clobber, load, store, restore_mstatus}
use lowrisc_kc.Emulation.State.{refused}
use lowrisc_kc.Emulation.Misaligned.{
  finish_load, finish_store, misaligned_load_trap, misaligned_store_trap,
}

abbrev pub mask_funct3 : ℕ
mask_funct3 = 0x7000

module _ (c : Clobber) where
  unfoldable pub emulate_float_load : ℕ → ℕ → ℕ → Hart → Result
  unfolding get_rs1 imm_i set_f32_rd set_f64_rd load finish_load misaligned_load_trap
      restore_mstatus
  emulate_float_load insn mstatus mepc h =
      let addr = u64 (get_rs1 insn h + imm_i insn) in
      let funct3 = bit_and insn mask_funct3 in
      if funct3 == bit_and match_flw mask_funct3
      then if addr % 4 == 0
        then finish_load c mstatus mepc (set_f32_rd insn) h (load 4 addr h)
        else misaligned_load_trap c h
      else if funct3 == bit_and match_fld mask_funct3
      then if addr % 8 == 0
        then finish_load c mstatus mepc (set_f64_rd insn) h (load 8 addr h)
        else misaligned_load_trap c h
      else refused (restore_mstatus mstatus mepc h)

  unfoldable pub emulate_float_store : ℕ → ℕ → ℕ → Hart → Result
  unfolding get_rs1 imm_s get_f32 get_f64 store finish_store misaligned_store_trap restore_mstatus
  emulate_float_store insn mstatus mepc h =
      let addr = u64 (get_rs1 insn h + imm_s insn) in
      let funct3 = bit_and insn mask_funct3 in
      if funct3 == bit_and match_fsw mask_funct3
      then if addr % 4 == 0
        then finish_store c mstatus mepc (store 4 addr (get_f32 insn 20 h) h)
        else misaligned_store_trap c h
      else if funct3 == bit_and match_fsd mask_funct3
      then if addr % 8 == 0
        then finish_store c mstatus mepc (store 8 addr (get_f64 insn 20 h) h)
        else misaligned_store_trap c h
      else refused (restore_mstatus mstatus mepc h)
