-- ===== src/Emulation/Trap/Fetched.antt =====
-- From the trap to the routine: the instruction in memory decides.
use lowrisc_kc.Base.{ℕ, ◌/◌, ◌%◌, ◌^◌, ◌<◌, ◌≡◌, ◌≢◌, ap, u32, ◌∙◌, some, bit_and, arith}
use lowrisc_kc.Base.Bits.{bit_and_mask}
use lowrisc_kc.Emulation.State.{Hart, refused}
use lowrisc_kc.Emulation.Decode.{Fields, IsFields, encode, bit_and_field}
use lowrisc_kc.Emulation.Memory.{Clobber, load, with_insn, after_fetch}
use lowrisc_kc.Emulation.MulDiv.Dispatch.{
  by_funct3, retire_to, emulate_mul_div-by_funct3, emulate_mul_div32-only_mulw,
}
use lowrisc_kc.Emulation.Float.{SoftFloat}
use lowrisc_kc.Emulation.Trap.{emulate, emulate_insn, illegal_insn_trap}

row :
    (sf : SoftFloat) (c : Clobber) (h : Hart) (insn i : ℕ)
    → bit_and insn 3 ≡ 3
    → bit_and insn 0x7c / 4 ≡ i
    → emulate_insn sf c h insn ≡ emulate sf c i insn h.mstatus h.mepc h
unfolding emulate_insn
row sf c h insn i e3 ei = rw (e3, ei)

module _ (sf : SoftFloat) (c : Clobber) (f : Fields) (fields : IsFields f) (h : Hart)
    (fetched : load 4 h.mepc h ≡ some (encode f)) where
  enters :
      (insn : ℕ)
      → load 4 h.mepc h ≡ some insn
      → insn < 2 ^ 32
      → illegal_insn_trap sf c h ≡ emulate_insn sf c h insn
  unfolding illegal_insn_trap with_insn
  enters insn e small =
      ap (after_fetch c (emulate_insn sf c h) h) e
      ∙ ap (emulate_insn sf c h) {x = u32 insn} {y = insn} (omega arith)

  table_index : bit_and (encode f) 0x7c / 4 ≡ f.opcode / 4
  table_index = omega (arith, bit_and_field 2 5 (encode f))

  low_bits : bit_and (encode f) 3 ≡ f.opcode % 4
  low_bits = omega (arith, bit_and_mask 2 (encode f))

  goes_to :
      f.opcode % 4 ≡ 3
      → illegal_insn_trap sf c h ≡ emulate sf c (f.opcode / 4) (encode f) h.mstatus h.mepc h
  goes_to e =
      enters (encode f) fetched (omega arith)
      ∙ row sf c h (encode f) (f.opcode / 4) (low_bits ∙ e) table_index

  at_row :
      (i : ℕ)
      → f.opcode / 4 ≡ i
      → emulate sf c (f.opcode / 4) (encode f) h.mstatus h.mepc h
        ≡ emulate sf c i (encode f) h.mstatus h.mepc h
  at_row i e = ap (λ (t : ℕ). emulate sf c t (encode f) h.mstatus h.mepc h) e

  -- An instruction of the M extension that the hart does not have, fetched from the address of the
  -- trap, ends with the value of its row in rd and at the next instruction.
  pub illegal_insn_trap-by_funct3 :
      f.opcode ≡ 0x33
      → f.funct7 ≡ 1
      → illegal_insn_trap sf c h
        ≡ retire_to h.mepc f.rd (by_funct3 f.funct3 (h.gpr f.rs1) (h.gpr f.rs2)) h
  unfolding emulate
  illegal_insn_trap-by_funct3 eo e7 =
      goes_to (omega arith)
      ∙ at_row 12 (omega arith)
      ∙ emulate_mul_div-by_funct3 f fields h.mepc h e7 eo

  -- The 32-bit divisions and remainders (opcode OP-32, funct7 1, funct3 not 0) are handed back as
  -- illegal, with the machine as it was.
  pub illegal_insn_trap-no_div32 :
      f.opcode ≡ 0x3b → f.funct7 ≡ 1 → f.funct3 ≢ 0 → illegal_insn_trap sf c h ≡ refused h
  unfolding emulate
  illegal_insn_trap-no_div32 eo e7 e3 =
      goes_to (omega arith)
      ∙ at_row 14 (omega arith)
      ∙ emulate_mul_div32-only_mulw f fields h.mepc h eo
      ∙ ground arith
