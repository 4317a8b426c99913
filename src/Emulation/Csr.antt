-- ===== src/Emulation/Csr.antt =====
-- The floating-point control and status register in `tp` (bbl/mtrap.h, a build with no FPU), and
-- `emulate_read_csr`, `emulate_write_csr` and `emulate_system` of bbl/emulation.c.
pub mod Laws
use lowrisc_kc.Base.{
  ℕ, ◌+◌, ◌-◌, ◌*◌, ◌/◌, ◌%◌, ◌^◌, Bool, true, false, not, ◌||◌, Option, none, some, bit_and,
  bit_or, if◌then◌else◌, ltb, ◌==◌, u32, u64,
}
use lowrisc_kc.Emulation.State.{
  Hart, Result, emulated, refused, get_rs1, get_rm, set_rd, next_insn, mstatus_fs,
}

unfoldable pub get_fcsr : Hart → ℕ
get_fcsr h = bit_and h.tp 0xff

unfoldable pub set_fcsr : ℕ → Hart → Hart
set_fcsr val h = record h { tp = bit_and val 0xff }

unfoldable pub get_frm : Hart → ℕ
unfolding get_fcsr
get_frm h = get_fcsr h / 2 ^ 5

unfoldable pub get_fflags : Hart → ℕ
unfolding get_fcsr
get_fflags h = bit_and (get_fcsr h) 0x1f

unfoldable pub set_frm : ℕ → Hart → Hart
unfolding set_fcsr get_fflags
set_frm val h = set_fcsr (bit_or (get_fflags h) (u64 (val * 2 ^ 5))) h

unfoldable pub set_fflags : ℕ → Hart → Hart
unfolding set_fcsr get_frm
set_fflags val h = set_fcsr (bit_or (get_frm h * 2 ^ 5) (bit_and val 0x1f)) h

-- `tp |= which`.
unfoldable pub raise_flags : ℕ → Hart → Hart
raise_flags which h = record h { tp = bit_or h.tp which }

abbrev pub csr_fflags : ℕ
csr_fflags = 0x1

abbrev pub csr_frm : ℕ
csr_frm = 0x2

abbrev pub csr_fcsr : ℕ
csr_fcsr = 0x3

unfoldable pub fpu_off : ℕ → Bool
fpu_off mstatus = bit_and mstatus mstatus_fs == 0

unfoldable pub emulate_read_csr : ℕ → ℕ → Hart → Option ℕ
unfolding get_frm get_fflags get_fcsr fpu_off
emulate_read_csr num mstatus h =
    if num == csr_frm
    then if fpu_off mstatus then none else some (get_frm h)
    else if num == csr_fflags
    then if fpu_off mstatus then none else some (get_fflags h)
    else if num == csr_fcsr
    then if fpu_off mstatus then none else some (get_fcsr h)
    else none

unfoldable pub emulate_write_csr : ℕ → ℕ → Hart → Option Hart
unfolding set_frm set_fflags set_fcsr
emulate_write_csr num val h =
    if num == csr_frm
    then some (set_frm val h)
    else if num == csr_fflags
    then some (set_fflags val h)
    else if num == csr_fcsr
    then some (set_fcsr val h)
    else none

-- ~x of a word.
abbrev pub complement : ℕ → ℕ
complement x = 2 ^ 64 - 1 - x

-- The switch on funct3: the new value and whether it is written; `none` is `return -1`.
unfoldable pub csr_operation : ℕ → ℕ → ℕ → ℕ → Option (ℕ × Bool)
csr_operation rm rs1_num rs1_val csr_val =
    let do_write = not (rs1_num == 0) in
    if rm == 1
    then some (rs1_val, true)
    else if rm == 2
    then some (bit_or csr_val rs1_val, do_write)
    else if rm == 3
    then some (bit_and csr_val (complement rs1_val), do_write)
    else if rm == 5
    then some (rs1_num, true)
    else if rm == 6
    then some (bit_or csr_val rs1_num, do_write)
    else if rm == 7
    then some (bit_and csr_val (complement rs1_num), do_write)
    else none

-- The end: `SET_RD(insn, regs, csr_val)` in the state that the write left.
unfoldable pub finish_csr : ℕ → ℕ → ℕ → Hart → Option Hart → Result
unfolding set_rd next_insn
finish_csr insn mepc csr_val h none = refused h
finish_csr insn mepc csr_val h (some h') = emulated (next_insn mepc (set_rd insn h' csr_val))

unfoldable pub write_if : ℕ → Hart → Option (ℕ × Bool) → Option Hart
unfolding emulate_write_csr
write_if num h none = none
write_if num h (some (val, true)) = emulate_write_csr num val h
write_if num h (some (val, false)) = some h

unfoldable pub with_csr : ℕ → ℕ → Hart → Option ℕ → Result
unfolding get_rs1 get_rm csr_operation write_if finish_csr
with_csr insn mepc h none = refused h
with_csr insn mepc h (some csr_val) =
    let rs1_num = bit_and (insn / 2 ^ 15) 0x1f in
    finish_csr insn mepc csr_val h (
      write_if (u32 insn / 2 ^ 20) h (csr_operation (get_rm insn) rs1_num (get_rs1 insn h) csr_val))

unfoldable pub emulate_system : ℕ → ℕ → ℕ → Hart → Result
unfolding emulate_read_csr with_csr
emulate_system insn mstatus mepc h =
    with_csr insn mepc h (emulate_read_csr (u32 insn / 2 ^ 20) mstatus h)
