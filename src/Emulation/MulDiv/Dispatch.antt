-- ===== src/Emulation/MulDiv/Dispatch.antt =====
-- Which operation an instruction of the M extension selects, from its fields.
use lowrisc_kc.Base.{
  ℕ, zero, suc, ◌+◌, ◌*◌, ◌/◌, ◌^◌, ◌<◌, ◌≡◌, refl, ap, ◌∙◌, bit_and, ◌&&◌, ◌==◌, if◌then◌else◌,
  arith, u32, u64,
}
use lowrisc_kc.Emulation.Encoding.{mask_mul}
use lowrisc_kc.Emulation.State.{
  Hart, Result, emulated, refused, undefined, reg_offset, update, get_rs1, get_rs2, sign_extend32,
}
use lowrisc_kc.Emulation.Decode.{Fields, IsFields, encode, bit_and_r_type, reg_offset_lem}
use lowrisc_kc.Emulation.MulDiv.{
  Value, value, illegal, undef, signed_div, signed_rem, unsigned_div, unsigned_rem, high_word,
  sign_extend128, mul_div_value, mul_div32_value, retire, emulate_mul_div, emulate_mul_div32,
  int32_value,
}

-- The table of the manual: funct3 of an instruction with opcode OP and funct7 1.
unfoldable pub by_funct3 : ℕ → ℕ → ℕ → Value
by_funct3 zero a b = value (u64 (a * b))
by_funct3 (suc zero) a b = value (high_word (sign_extend128 a) (sign_extend128 b))
by_funct3 (suc (suc zero)) a b = value (high_word (sign_extend128 a) b)
by_funct3 (suc (suc (suc zero))) a b = value (high_word a b)
by_funct3 (suc (suc (suc (suc zero)))) a b = signed_div 64 a b
by_funct3 (suc (suc (suc (suc (suc zero))))) a b = unsigned_div a b
by_funct3 (suc (suc (suc (suc (suc (suc zero)))))) a b = signed_rem 64 a b
by_funct3 (suc (suc (suc (suc (suc (suc (suc n))))))) a b = unsigned_rem a b

-- The end of an emulated instruction, by the number of rd.
unfoldable pub retire_to : ℕ → ℕ → Value → Hart → Result
retire_to mepc rd (value v) h =
    emulated (record h { gpr = update h.gpr rd (u64 v); mepc = u64 (mepc + 4) })
retire_to mepc rd illegal h = refused h
retire_to mepc rd undef h = undefined

-- The tests pick the row of the table.
selected :
    (insn a b f3 : ℕ)
    → f3 < 8
    → bit_and insn mask_mul ≡ 1 * 2 ^ 25 + f3 * 2 ^ 12 + 0x33
    → mul_div_value insn a b ≡ by_funct3 f3 a b
unfolding mul_div_value by_funct3
selected insn a b zero h e = rw e
selected insn a b (suc zero) h e = rw e
selected insn a b (suc (suc zero)) h e = rw e
selected insn a b (suc (suc (suc zero))) h e = rw e
selected insn a b (suc (suc (suc (suc zero)))) h e = rw e
selected insn a b (suc (suc (suc (suc (suc zero))))) h e = rw e
selected insn a b (suc (suc (suc (suc (suc (suc zero)))))) h e = rw e
selected insn a b (suc (suc (suc (suc (suc (suc (suc zero))))))) h e = rw e
selected insn a b (suc (suc (suc (suc (suc (suc (suc (suc n)))))))) h e = absurd (omega arith)

selected32 :
    (insn a b f7 f3 : ℕ)
    → f7 < 128
    → f3 < 8
    → bit_and insn mask_mul ≡ f7 * 2 ^ 25 + f3 * 2 ^ 12 + 0x3b
    → mul_div32_value insn a b ≡ (if f7 == 1 && f3 == 0 then value (u32 (a * b)) else illegal)
unfolding mul_div32_value
selected32 insn a b f7 f3 h7 h3 e = rw e (ground arith)

module _ (f : Fields) (fields : IsFields f) where
  encode-lt : encode f < 2 ^ 32
  encode-lt = omega arith

  pub masked : bit_and (encode f) mask_mul ≡ f.funct7 * 2 ^ 25 + f.funct3 * 2 ^ 12 + f.opcode
  masked = omega (arith, bit_and_r_type (encode f) encode-lt)

  pub rs1_field : reg_offset (encode f) 15 / 8 ≡ f.rs1
  rs1_field = omega (arith, reg_offset_lem (encode f) 15)

  pub rs2_field : reg_offset (encode f) 20 / 8 ≡ f.rs2
  rs2_field = omega (arith, reg_offset_lem (encode f) 20)

  pub rd_field : reg_offset (encode f) 7 / 8 ≡ f.rd
  rd_field = omega (arith, reg_offset_lem (encode f) 7)

  pub get_rs1-encode : (h : Hart) → get_rs1 (encode f) h ≡ h.gpr f.rs1
  unfolding get_rs1
  get_rs1-encode h = ap h.gpr rs1_field

  pub get_rs2-encode : (h : Hart) → get_rs2 (encode f) h ≡ h.gpr f.rs2
  unfolding get_rs2
  get_rs2-encode h = ap h.gpr rs2_field

  at_register :
      (mepc : ℕ) (v : Value) (h : Hart) → retire (encode f) mepc v h ≡ retire_to mepc f.rd v h
  unfolding retire retire_to
  at_register mepc (value v) h = rw rd_field
  at_register mepc illegal h = refl
  at_register mepc undef h = refl

  -- An instruction of opcode OP (0x33) with funct7 1 is emulated as the row of its funct3 says, on
  -- the registers that its fields name; the result goes to rd and mepc to the next instruction.
  pub emulate_mul_div-by_funct3 :
      (mepc : ℕ) (h : Hart)
      → f.funct7 ≡ 1
      → f.opcode ≡ 0x33
      → emulate_mul_div (encode f) mepc h
        ≡ retire_to mepc f.rd (by_funct3 f.funct3 (h.gpr f.rs1) (h.gpr f.rs2)) h
  unfolding emulate_mul_div
  emulate_mul_div-by_funct3 mepc h e7 eo =
      at_register mepc _ h
      ∙ ap (λ v. retire_to mepc f.rd v h)
          (rw (get_rs1-encode h, get_rs2-encode h)
            (selected (encode f) (h.gpr f.rs1) (h.gpr f.rs2) f.funct3 fields.funct3
              (masked ∙ omega arith)))

  -- An instruction of opcode OP-32 (0x3b) is emulated as MULW if its funct7 is 1 and its funct3 is 0,
  -- and refused with nothing changed otherwise: also DIVW, DIVUW, REMW and REMUW, whose tests
  -- compare with the match values of the 64-bit instructions.
  pub emulate_mul_div32-only_mulw :
      (mepc : ℕ) (h : Hart)
      → f.opcode ≡ 0x3b
      → emulate_mul_div32 (encode f) mepc h ≡ (
          if f.funct7 == 1 && f.funct3 == 0
          then retire_to mepc f.rd
              (value (sign_extend32 (u32 (u32 (h.gpr f.rs1) * u32 (h.gpr f.rs2)))))
              h
          else refused h)
  unfolding emulate_mul_div32 retire_to int32_value
  emulate_mul_div32-only_mulw mepc h eo =
      at_register mepc _ h
      ∙ rw
          (
            get_rs1-encode h,
            get_rs2-encode h,
            selected32 (encode f) (u32 (h.gpr f.rs1)) (u32 (h.gpr f.rs2)) f.funct7 f.funct3
                fields.funct7 fields.funct3 (masked ∙ omega arith),
          )
          (ground arith)
