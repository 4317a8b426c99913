-- ===== src/Emulation/Memory.antt =====
-- Accesses to the memory of the interrupted program: `unpriv_mem_access`, `restore_mstatus` and
-- `get_insn` of bbl/mtrap.h. What the control registers hold after a trap in machine mode is a
-- parameter, since the hardware sets them.
use lowrisc_kc.Base.{
  ℕ, zero, suc, ◌+◌, ◌-◌, ◌*◌, ◌/◌, ◌^◌, Bool, true, false, Option, none, some, bit_and, bit_or,
  if◌then◌else◌, u8, u32, u64,
}
use lowrisc_kc.Emulation.State.{Hart, Result, refused, update}

-- The control registers after an access of the routine trapped, from their values before.
pub record Clobber : Type 0 where
  pub mstatus : ℕ → ℕ
  pub mepc : ℕ → ℕ
  pub mcause : ℕ → ℕ

unfoldable pub trapped : Clobber → Hart → Hart
trapped c h = record h {
  mstatus = c.mstatus h.mstatus;
  mepc = c.mepc h.mepc;
  mcause = c.mcause h.mcause;
}

unfoldable pub join_bytes : Option ℕ → Option ℕ → Option ℕ
join_bytes none rest = none
join_bytes (some b) none = none
join_bytes (some b) (some v) = some (b + 256 * v)

-- The little-endian number in `n` bytes at an address; `none` is a trap.
unfoldable pub load : ℕ → ℕ → Hart → Option ℕ
unfolding join_bytes
load zero addr h = some 0
load (suc n) addr h = join_bytes (h.mem addr) (load n (u64 (addr + 1)) h)

-- `sb val, 0(addr); srl val, val, 8; sb val, 1(addr); ...`: the second part is false where a store
-- trapped, and the stores before it are done.
unfoldable pub store : ℕ → ℕ → ℕ → Hart → Hart × Bool
store zero addr val h = (h, true)
store (suc n) addr val h =
    let rest =
      store n (u64 (addr + 1)) (val / 2 ^ 8)
        (record h { mem = update h.mem addr (some (u8 val)) }) in
    if h.can_store addr then rest else (h, false)

-- MSTATUS_PRV1 | MSTATUS_IE1 | MSTATUS_PRV2 | MSTATUS_IE2 | MSTATUS_PRV3 | MSTATUS_IE3.
abbrev pub restored_bits : ℕ
restored_bits = 0xff8

unfoldable pub restore_mstatus : ℕ → ℕ → Hart → Hart
restore_mstatus mstatus mepc h = record h {
  mstatus = bit_or (bit_and h.mstatus (2 ^ 64 - 1 - restored_bits)) (bit_and restored_bits mstatus);
  mepc = mepc;
}

-- What an access that trapped ends in: `restore_mstatus(mstatus, mepc); return -1;`.
unfoldable pub give_up : Clobber → ℕ → ℕ → Hart → Result
unfolding trapped restore_mstatus
give_up c mstatus mepc h = refused (restore_mstatus mstatus mepc (trapped c h))

-- What follows a fetch: the routine, or the end that `get_insn` prepares on an error.
unfoldable pub after_fetch : Clobber → (ℕ → Result) → Hart → Option ℕ → Result
unfolding trapped restore_mstatus
after_fetch c k h none =
    refused (record (restore_mstatus h.mstatus h.mepc (trapped c h)) { mcause = h.mcause })
after_fetch c k h (some insn) = k (u32 insn)

-- `get_insn` with no compressed instructions, and what the trap handlers do with its error.
unfoldable pub with_insn : Clobber → (ℕ → Result) → Hart → Result
unfolding load after_fetch
with_insn c k h = after_fetch c k h (load 4 h.mepc h)
