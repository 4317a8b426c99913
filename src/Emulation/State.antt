-- ===== src/Emulation/State.antt =====
-- The state that an emulation routine reads and writes: the saved registers of the interrupted
-- program, the control registers, and memory as that program sees it (bbl/mtrap.h).
use lowrisc_kc.Base.{
  ℕ, ◌+◌, ◌-◌, ◌*◌, ◌/◌, ◌^◌, Bool, Option, bit_and, bit_or, ◌==◌, if◌then◌else◌, ltb, u32, u64,
}

-- `regs[0..31]` is `gpr`, `regs[32..63]` is `fpr`; `tp` holds fcsr in a build with no FPU. A byte
-- of memory is `none` where a load with the rights of the interrupted program traps, and a store
-- traps where `can_store` is false.
pub record Hart : Type 0 where
  pub gpr : ℕ → ℕ
  pub fpr : ℕ → ℕ
  pub tp : ℕ
  pub mstatus : ℕ
  pub mepc : ℕ
  pub mcause : ℕ
  pub mem : ℕ → Option ℕ
  pub can_store : ℕ → Bool

-- What a routine comes to: `return 0`, `return -1`, or an operation that C leaves undefined.
pub data Result : Type 0 where
  emulated : Hart → Result
  refused : Hart → Result
  undefined : Result

abbrev pub update {ℓ} : {A : Type ℓ} → (ℕ → A) → ℕ → A → ℕ → A
update f i v j = if i == j then v else f j

-- GET_REG at a position of the instruction: with LOG_REGBYTES = 3 the byte offset into `regs` is
-- cut out of the shifted instruction, and a register is eight bytes.
unfoldable pub reg_offset : ℕ → ℕ → ℕ
reg_offset insn pos = bit_and (insn / 2 ^ (pos - 3)) (2 ^ 8 - 2 ^ 3)

unfoldable pub get_rs1 : ℕ → Hart → ℕ
unfolding reg_offset
get_rs1 insn h = h.gpr (reg_offset insn 15 / 8)

unfoldable pub get_rs2 : ℕ → Hart → ℕ
unfolding reg_offset
get_rs2 insn h = h.gpr (reg_offset insn 20 / 8)

unfoldable pub set_rd : ℕ → Hart → ℕ → Hart
unfolding reg_offset
set_rd insn h val = record h { gpr = update h.gpr (reg_offset insn 7 / 8) (u64 val) }

-- `regs[32 + i]` holds a 64-bit float; a 32-bit float is its low half.
unfoldable pub get_f64 : ℕ → ℕ → Hart → ℕ
get_f64 insn pos h = h.fpr (bit_and (insn / 2 ^ pos) 0x1f)

unfoldable pub get_f32 : ℕ → ℕ → Hart → ℕ
unfolding get_f64
get_f32 insn pos h = u32 (get_f64 insn pos h)

-- SET_FS_DIRTY.
abbrev pub mstatus_fs : ℕ
mstatus_fs = 0x3000

unfoldable pub set_fs_dirty : Hart → Hart
set_fs_dirty h = record h { mstatus = bit_or h.mstatus mstatus_fs }

unfoldable pub set_f64_rd : ℕ → Hart → ℕ → Hart
unfolding set_fs_dirty
set_f64_rd insn h val =
    set_fs_dirty (record h { fpr = update h.fpr (bit_and (insn / 2 ^ 7) 0x1f) (u64 val) })

unfoldable pub set_f32_rd : ℕ → Hart → ℕ → Hart
unfolding set_fs_dirty
set_f32_rd insn h val =
    let i = bit_and (insn / 2 ^ 7) 0x1f in
    set_fs_dirty (record h { fpr = update h.fpr i (h.fpr i / 2 ^ 32 * 2 ^ 32 + u32 val) })

-- An `int32_t` converted to `uintptr_t`.
unfoldable pub sign_extend32 : ℕ → ℕ
sign_extend32 x = if ltb x (2 ^ 31) then x else 2 ^ 64 - 2 ^ 32 + x

-- (int32_t)insn >> n, as a 64-bit pattern.
unfoldable pub sra32 : ℕ → ℕ → ℕ
sra32 x n = if x / 2 ^ 31 == 0 then x / 2 ^ n else 2 ^ 64 - 2 ^ (32 - n) + x / 2 ^ n

unfoldable pub imm_i : ℕ → ℕ
unfolding sra32
imm_i insn = sra32 insn 20

unfoldable pub imm_s : ℕ → ℕ
unfolding sra32
imm_s insn = bit_or (u64 (sra32 insn 25 * 2 ^ 5)) (bit_and (insn / 2 ^ 7) 0x1f)

unfoldable pub get_precision : ℕ → ℕ
get_precision insn = bit_and (insn / 2 ^ 25) 3

unfoldable pub get_rm : ℕ → ℕ
get_rm insn = bit_and (insn / 2 ^ 12) 7

-- `write_csr(mepc, mepc + 4)`, with the value of mepc that the routine was handed.
unfoldable pub next_insn : ℕ → Hart → Hart
next_insn mepc h = record h { mepc = u64 (mepc + 4) }
