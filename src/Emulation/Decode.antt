-- ===== src/Emulation/Decode.antt =====
-- The fields of an instruction word, and what the masks of bbl/encoding.h cut out of it.
use native.Mathlib.Nat.{div-add-mod', mod-lt, one-le-pow}
use lowrisc_kc.Base.{
  ℕ, ◌+◌, ◌-◌, ◌*◌, ◌/◌, ◌%◌, ◌^◌, ◌<◌, ◌≡◌, refl, sym, ap, ap₂, ◌∙◌, bit_and, arith,
}
use lowrisc_kc.Base.Bits.{bit_and_split, bit_and_mask, bit_and-zero}
use lowrisc_kc.Emulation.State.{reg_offset}

-- The fields of an R-type instruction.
pub record Fields : Type 0 where
  pub funct7 : ℕ
  pub rs2 : ℕ
  pub rs1 : ℕ
  pub funct3 : ℕ
  pub rd : ℕ
  pub opcode : ℕ

pub record IsFields (f : Fields) : Type 0 where
  pub funct7 : f.funct7 < 128
  pub rs2 : f.rs2 < 32
  pub rs1 : f.rs1 < 32
  pub funct3 : f.funct3 < 8
  pub rd : f.rd < 32
  pub opcode : f.opcode < 128

-- The instruction word that the manual lays out.
abbrev pub encode : Fields → ℕ
encode f =
    f.funct7 * 2 ^ 25
    + f.rs2 * 2 ^ 20
    + f.rs1 * 2 ^ 15
    + f.funct3 * 2 ^ 12
    + f.rd * 2 ^ 7
    + f.opcode

-- An aligned run of ones in a mask.
pub bit_and_field : (lo n a : ℕ) → bit_and a ((2 ^ n - 1) * 2 ^ lo) ≡ a / 2 ^ lo % 2 ^ n * 2 ^ lo
bit_and_field lo n a =
    let pos : 0 < 2 ^ lo = one-le-pow lo 2 (omega arith) in
    ap₂ bit_and (sym (div-add-mod' a (2 ^ lo))) (omega arith)
    ∙ bit_and_split lo (a / 2 ^ lo) (2 ^ n - 1) (a % 2 ^ lo) 0 (mod-lt a pos) pos
    ∙ omega
        (arith, ap (λ (t : ℕ). t * 2 ^ lo) (bit_and_mask n (a / 2 ^ lo)), bit_and-zero (a % 2 ^ lo))

pub reg_offset_lem : (insn pos : ℕ) → reg_offset insn pos ≡ insn / 2 ^ (pos - 3) / 8 % 32 * 8
unfolding reg_offset
reg_offset_lem insn pos = bit_and_field 3 5 (insn / 2 ^ (pos - 3))

bit_and_split_at :
    (k m n a : ℕ)
    → n < 2 ^ k
    → bit_and a (m * 2 ^ k + n) ≡ bit_and (a / 2 ^ k) m * 2 ^ k + bit_and (a % 2 ^ k) n
bit_and_split_at k m n a h =
    let pos : 0 < 2 ^ k = one-le-pow k 2 (omega arith) in
    ap₂ bit_and (sym (div-add-mod' a (2 ^ k))) refl
    ∙ bit_and_split k (a / 2 ^ k) m (a % 2 ^ k) n (mod-lt a pos) h

-- MASK_FUNCT7 and MASK_FUNCT3 with the opcode, as MASK_MUL and its like join them.
pub bit_and_r_type :
    (insn : ℕ)
    → insn < 2 ^ 32
    → bit_and insn 0xfe00707f ≡ insn / 2 ^ 25 * 2 ^ 25 + insn / 2 ^ 12 % 8 * 2 ^ 12 + insn % 128
bit_and_r_type insn h = omega (
  arith,
  bit_and_split_at 25 127 0x707f insn,
  bit_and_split_at 12 7 0x7f (insn % 2 ^ 25),
  bit_and_mask 7 (insn / 2 ^ 25),
  bit_and_mask 3 (insn % 2 ^ 25 / 2 ^ 12),
  bit_and_mask 7 (insn % 2 ^ 25 % 2 ^ 12),
)

-- MASK_FUNCT3 with the opcode, as MASK_LW and its like join them.
pub bit_and_i_type : (insn : ℕ) → bit_and insn 0x707f ≡ insn / 2 ^ 12 % 8 * 2 ^ 12 + insn % 128
bit_and_i_type insn = omega (
  arith,
  bit_and_split_at 12 7 0x7f insn,
  bit_and_mask 3 (insn / 2 ^ 12),
  bit_and_mask 7 (insn % 2 ^ 12),
)
