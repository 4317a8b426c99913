-- ===== src/Emulation/Misaligned.antt =====
-- `misaligned_load_trap` and `misaligned_store_trap` of bbl/emulation.c, in a 64-bit build with
-- the floating-point registers in memory.
pub mod Words
pub mod Loads
pub mod Stores
pub mod Bytes
use lowrisc_kc.Base.{
  ℕ, ◌+◌, ◌-◌, ◌*◌, ◌/◌, ◌%◌, ◌^◌, Bool, true, false, Option, none, some, bit_or, if◌then◌else◌,
  ltb, u64,
}
use lowrisc_kc.Emulation.Encoding.{
  matches, mask_lw, match_lw, match_ld, match_lwu, match_fld, match_flw, match_lh, match_lhu,
  match_sw, match_sd, match_sh, match_fsd, match_fsw,
}
use lowrisc_kc.Emulation.State.{
  Hart, Result, emulated, refused, get_rs1, get_rs2, get_f32, get_f64, set_rd, set_f32_rd,
  set_f64_rd, imm_i, imm_s, next_insn,
}
use lowrisc_kc.Emulation.Memory.{Clobber, load, store, give_up, with_insn}

-- The conversion of an `n`-byte value to `uintptr_t`.
unfoldable pub extend : ℕ → Bool → ℕ → ℕ
extend n true v = if ltb v (2 ^ (8 * n - 1)) then v else 2 ^ 64 - 2 ^ (8 * n) + v
extend n false v = v

-- `val_lo >>= addr * 8; val_hi <<= (sizeof - addr) * 8; val = (type)(val_lo | val_hi);`. The counts
-- are as large as the address: the shift instructions read them modulo the width.
unfoldable pub merge : ℕ → ℕ → ℕ → ℕ → ℕ
merge n addr lo hi =
    let down = addr * 8 % (8 * n) in
    let up = (n + 2 ^ 64 - addr) * 8 % (8 * n) in bit_or (lo / 2 ^ down) (hi * 2 ^ up % 2 ^ (8 * n))

-- Two loads of one access: it traps if either does.
unfoldable pub both : (ℕ → ℕ → ℕ) → Option ℕ → Option ℕ → Option ℕ
both f none y = none
both f (some a) none = none
both f (some a) (some b) = some (f a b)

-- DO_LOAD of the types of `n` bytes, 4 or 8: the two aligned words around the address.
unfoldable pub do_load : ℕ → Bool → ℕ → Hart → Option ℕ
unfolding load extend merge both
do_load n is_signed addr h =
    let addr_lo = addr / n * n in
    both (λ lo hi. extend n is_signed (merge n addr lo hi)) (load n addr_lo h)
      (load n (u64 (addr_lo + n)) h)

-- The two byte loads that stand for LH and LHU; the second one extends the sign for LH.
unfoldable pub do_load_half : Bool → ℕ → Hart → Option ℕ
unfolding load extend both
do_load_half is_signed addr h =
    both (λ val tmp. bit_or val (u64 (extend 1 is_signed tmp * 2 ^ 8))) (load 1 addr h)
      (load 1 (u64 (addr + 1)) h)

-- The end of a load: the error, or the register that the value goes to.
unfoldable pub finish_load : Clobber → ℕ → ℕ → (Hart → ℕ → Hart) → Hart → Option ℕ → Result
unfolding give_up next_insn
finish_load c mstatus mepc set_reg h none = give_up c mstatus mepc h
finish_load c mstatus mepc set_reg h (some val) = emulated (next_insn mepc (set_reg h val))

unfoldable pub misaligned_load : Clobber → Hart → ℕ → Result
unfolding do_load do_load_half finish_load set_rd set_f32_rd set_f64_rd get_rs1 imm_i
misaligned_load c h insn =
    let addr = u64 (get_rs1 insn h + imm_i insn) in
    let finish = finish_load c h.mstatus h.mepc in
    if matches insn mask_lw match_lw
    then finish (set_rd insn) h (do_load 4 true addr h)
    else if matches insn mask_lw match_ld
    then finish (set_rd insn) h (do_load 8 false addr h)
    else if matches insn mask_lw match_lwu
    then finish (set_rd insn) h (do_load 4 false addr h)
    else if matches insn mask_lw match_fld
    then finish (set_f64_rd insn) h (do_load 8 false addr h)
    else if matches insn mask_lw match_flw
    then finish (set_f32_rd insn) h (do_load 4 false addr h)
    else if matches insn mask_lw match_lh
    then finish (set_rd insn) h (do_load_half true addr h)
    else if matches insn mask_lw match_lhu
    then finish (set_rd insn) h (do_load_half false addr h)
    else refused h

unfoldable pub misaligned_load_trap : Clobber → Hart → Result
unfolding with_insn misaligned_load
misaligned_load_trap c h = with_insn c (misaligned_load c h) h

-- The end of a store: the error, or the next instruction.
unfoldable pub finish_store : Clobber → ℕ → ℕ → Hart × Bool → Result
unfolding give_up next_insn
finish_store c mstatus mepc (h, true) = emulated (next_insn mepc h)
finish_store c mstatus mepc (h, false) = give_up c mstatus mepc h

unfoldable pub misaligned_store : Clobber → Hart → ℕ → Result
unfolding store finish_store get_rs1 get_rs2 get_f32 get_f64 imm_s
misaligned_store c h insn =
    let addr = u64 (get_rs1 insn h + imm_s insn) in
    let finish = finish_store c h.mstatus h.mepc in
    if matches insn mask_lw match_sw
    then finish (store 4 addr (get_rs2 insn h) h)
    else if matches insn mask_lw match_sd
    then finish (store 8 addr (get_rs2 insn h) h)
    else if matches insn mask_lw match_sh
    then finish (store 2 addr (get_rs2 insn h) h)
    else if matches insn mask_lw match_fsd
    then finish (store 8 addr (get_f64 insn 20 h) h)
    else if matches insn mask_lw match_fsw
    then finish (store 4 addr (get_f32 insn 20 h) h)
    else refused h

unfoldable pub misaligned_store_trap : Clobber → Hart → Result
unfolding with_insn misaligned_store
misaligned_store_trap c h = with_insn c (misaligned_store c h) h
