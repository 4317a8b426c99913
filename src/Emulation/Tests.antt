-- ===== src/Emulation/Tests.antt =====
-- Runs of the emulation, and its theorems at concrete machines.
use lowrisc_kc.Base.{
  ◌↔◌, ℕ, ◌+◌, ◌-◌, ◌*◌, ◌/◌, ◌%◌, ◌^◌, ◌≤◌, ◌<◌, ◌≡◌, refl, true, false, some, arith, u64, ◌⊎◌,
  if◌then◌else◌, ltb, ◌==◌,
}
use lowrisc_kc.Base.Int.{pos, ◌+ℤ◌, ◌*ℤ◌, signed}
use lowrisc_kc.Emulation.State.{
  Hart, emulated, refused, set_rd, get_rs1, get_rs2, next_insn, imm_i, imm_s,
}
use lowrisc_kc.Emulation.Decode.{Fields, encode}
use lowrisc_kc.Emulation.Memory.{Clobber, load}
use lowrisc_kc.Emulation.MulDiv.{value, signed_div, signed_rem, high_word, sign_extend128}
use lowrisc_kc.Emulation.MulDiv.Dispatch.{by_funct3, retire_to}
use lowrisc_kc.Emulation.MulDiv.Quotient.{IsDivision, signed_div-IsDivision}
use lowrisc_kc.Emulation.MulDiv.High.{high_word-signed}
use lowrisc_kc.Emulation.Misaligned.{misaligned_load, misaligned_store, extend}
use lowrisc_kc.Emulation.Misaligned.Bytes.{Holds, little_endian}
use lowrisc_kc.Emulation.Misaligned.Loads
use lowrisc_kc.Emulation.Misaligned.Stores
use lowrisc_kc.Emulation.Float.{SoftFloat}
use lowrisc_kc.Emulation.Float.Convert.{saturate}
use lowrisc_kc.Emulation.Float.Convert.Limits.{number}
use lowrisc_kc.Emulation.Float.Convert.Clipping.{
  to_lu, field_of, clipped, is_outside, value_of, deviates, saturate-clipped,
}
use lowrisc_kc.Emulation.Trap.{illegal_insn_trap}
use lowrisc_kc.Emulation.Trap.Fetched.{illegal_insn_trap-by_funct3, illegal_insn_trap-no_div32}

-- MULH x3, x1, x2.
abbrev mulh : Fields
mulh = record { funct7 = 1; rs2 = 2; rs1 = 1; funct3 = 1; rd = 3; opcode = 0x33 }

-- DIVW x3, x1, x2.
abbrev divw : Fields
divw = record { funct7 = 1; rs2 = 2; rs1 = 1; funct3 = 4; rd = 3; opcode = 0x3b }

-- The bytes of an instruction word.
abbrev word_bytes : ℕ → ℕ → ℕ
word_bytes insn i =
    if i == 0
    then insn % 256
    else if i == 1
    then insn / 256 % 256
    else if i == 2
    then insn / 65536 % 256
    else if i == 3
    then insn / 16777216
    else 7

-- Every register holds 9, every address can be stored, and the instruction stands at address 0.
abbrev machine : ℕ → Hart
machine insn = record {
  gpr = λ _. 9;
  fpr = λ _. 0;
  tp = 0;
  mstatus = 0x3000;
  mepc = 0;
  mcause = 2;
  mem = λ a. some (word_bytes insn a);
  can_store = λ _. true;
}

abbrev clobber : Clobber
clobber = record { mstatus = λ x. x; mepc = λ _. 0; mcause = λ _. 5 }

abbrev arithmetic : SoftFloat
arithmetic = record {
  f32_add = λ t a b. (a, t);
  f64_add = λ t a b. (a, t);
  f32_mul = λ t a b. (a, t);
  f64_mul = λ t a b. (a, t);
  f32_div = λ t a b. (a, t);
  f64_div = λ t a b. (a, t);
  f32_sqrt = λ t a. (a, t);
  f64_sqrt = λ t a. (a, t);
  f32_lt_quiet = λ t a b. (ltb a b, t);
  f64_lt_quiet = λ t a b. (ltb a b, t);
  f32_eq = λ t a b. (a == b, t);
  f64_eq = λ t a b. (a == b, t);
  f32_lt = λ t a b. (ltb a b, t);
  f64_lt = λ t a b. (ltb a b, t);
  f32_to_f64 = λ t a. (a, t);
  f64_to_f32 = λ t a. (a, t);
  ui64_to_f64 = λ t a. (a, t);
  f64_to_ui64 = λ t a. (a, t);
  mul_add_f32 = λ op t a b c. (a, t);
  mul_add_f64 = λ op t a b c. (a, t);
  is_nan_f32 = λ _. false;
  is_nan_f64 = λ _. false;
}

mulh_fetched : load 4 0 (machine (encode mulh)) ≡ some (encode mulh)
unfolding load
mulh_fetched = refl

divw_fetched : load 4 0 (machine (encode divw)) ≡ some (encode divw)
unfolding load
divw_fetched = refl

illegal_insn_trap-by_funct3_example :
    illegal_insn_trap arithmetic clobber (machine (encode mulh))
    ≡ retire_to 0 3 (by_funct3 1 9 9) (machine (encode mulh))
illegal_insn_trap-by_funct3_example =
    illegal_insn_trap-by_funct3 arithmetic clobber mulh (omega arith) (machine (encode mulh))
      mulh_fetched refl refl

illegal_insn_trap-no_div32_example :
    illegal_insn_trap arithmetic clobber (machine (encode divw)) ≡ refused (machine (encode divw))
illegal_insn_trap-no_div32_example =
    illegal_insn_trap-no_div32 arithmetic clobber divw (omega arith) (machine (encode divw))
      divw_fetched refl refl (omega arith)

signed_div-IsDivision_example :
    (q : ℕ) × (r : ℕ) × (signed_div 64 (2 ^ 64 - 7) 2 ≡ value q)
    × (signed_rem 64 (2 ^ 64 - 7) 2 ≡ value r)
    × IsDivision (2 ^ 64 - 7) 2 q r
unfolding signed_div
signed_div-IsDivision_example =
    signed_div-IsDivision (2 ^ 64 - 7) 2 (omega arith) (omega arith) (omega arith) refl

high_word-signed_example :
    signed 64 (2 ^ 64 - 3) *ℤ signed 64 5
    ≡ signed 64 (high_word (sign_extend128 (2 ^ 64 - 3)) (sign_extend128 5)) *ℤ pos (2 ^ 64)
      +ℤ pos (u64 ((2 ^ 64 - 3) * 5))
high_word-signed_example = high_word-signed (2 ^ 64 - 3) 5 (omega arith) (omega arith)

-- LW x3, 0(x1), at address 9; memory holds 7 from address 4 on.
abbrev lw_insn : ℕ
lw_insn = 1 * 2 ^ 15 + 2 * 2 ^ 12 + 3 * 2 ^ 7 + 3

sevens : Holds (machine lw_insn) (4 * 2) 8 (λ _. 7)
sevens = record { within = omega arith; bytes = λ i h. ground arith; small = λ i. omega arith }

misaligned_load-little_endian_example :
    misaligned_load clobber (machine lw_insn) lw_insn
    ≡ emulated (
        next_insn 0 (set_rd lw_insn (machine lw_insn) (extend 4 true (little_endian 4 (λ _. 7) 1))))
unfolding get_rs1 imm_i Loads.size Loads.funct3 Loads.is_signed
misaligned_load-little_endian_example =
    Loads.misaligned_load-little_endian clobber (machine lw_insn) lw_insn Loads.Wide.lw 2 1 (λ _. 7)
      refl refl (omega arith) (omega arith) sevens

-- SW x2, 0(x1), at address 9.
abbrev sw_insn : ℕ
sw_insn = 2 * 2 ^ 20 + 1 * 2 ^ 15 + 2 * 2 ^ 12 + 0x23

misaligned_store-stores_example :
    (h' : Hart) × (misaligned_store clobber (machine sw_insn) sw_insn ≡ emulated (next_insn 0 h'))
    × (load 4 9 h' ≡ some 9)
    × ((j : ℕ) → (j < 9) ⊎ (9 + 4 ≤ j) → h'.mem j ≡ (machine sw_insn).mem j)
unfolding get_rs1 get_rs2 imm_s Stores.size Stores.funct3
misaligned_store-stores_example =
    Stores.misaligned_store-stores clobber (machine sw_insn) sw_insn Stores.Wide.sw refl
      (omega arith) (λ j p q. refl)

saturate-clipped_example :
    let r = saturate 3 (record { negative = true; uint_val = 5 }) in
    (r.1 ≡ is_outside to_lu (number true 5))
    × ((value_of to_lu r.0 ≡ clipped to_lu (number true 5))
        ↔ (deviates to_lu (number true 5) ≡ false))
unfolding field_of
saturate-clipped_example = saturate-clipped to_lu true 5
