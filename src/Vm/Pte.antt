-- ===== src/Vm/Pte.antt =====
-- Page table entries: the macros of bbl/encoding.h and the functions of bbl/vm.c that make entries
-- and take addresses apart.
pub mod Permissions
use lowrisc_kc.Base.{ℕ, ◌+◌, ◌-◌, ◌*◌, ◌/◌, ◌^◌, bit_and, bit_or, ◌==◌, if◌then◌else◌, u64}

abbrev pub prot_read : ℕ
prot_read = 1

abbrev pub prot_write : ℕ
prot_write = 2

abbrev pub prot_exec : ℕ
prot_exec = 4

-- RISCV_PGSHIFT, RISCV_PGSIZE and RISCV_PGLEVEL_BITS.
abbrev pub pgshift : ℕ
pgshift = 12

abbrev pub pgsize : ℕ
pgsize = 4096

abbrev pub pglevel_bits : ℕ
pglevel_bits = 9

-- PTE_V and PTE_PPN_SHIFT.
abbrev pub pte_v : ℕ
pte_v = 1

abbrev pub ppn_shift : ℕ
ppn_shift = 10

-- PTE_TYPE_SR and its kin.
abbrev pub type_table : ℕ
type_table = 0x00

abbrev pub type_ur_sr : ℕ
type_ur_sr = 0x08

abbrev pub type_urw_srw : ℕ
type_urw_srw = 0x0a

abbrev pub type_urx_srx : ℕ
type_urx_srx = 0x0c

abbrev pub type_urwx_srwx : ℕ
type_urwx_srwx = 0x0e

abbrev pub type_sr : ℕ
type_sr = 0x10

abbrev pub type_srw : ℕ
type_srw = 0x12

abbrev pub type_srx : ℕ
type_srx = 0x14

abbrev pub type_srwx : ℕ
type_srwx = 0x16

-- PTE_TABLE, PTE_UR, PTE_UW and PTE_UX: a bit of a table of the low five bits.
unfoldable pub pte_bit : ℕ → ℕ → ℕ
pte_bit row pte = bit_and (row / 2 ^ bit_and pte 0x1f) 1

unfoldable pub pte_table : ℕ → ℕ
unfolding pte_bit
pte_table pte = pte_bit 0x0000000a pte

unfoldable pub pte_ur : ℕ → ℕ
unfolding pte_bit
pte_ur pte = pte_bit 0x0000aaa0 pte

unfoldable pub pte_uw : ℕ → ℕ
unfolding pte_bit
pte_uw pte = pte_bit 0x00008880 pte

unfoldable pub pte_ux : ℕ → ℕ
unfolding pte_bit
pte_ux pte = pte_bit 0x0000a0a0 pte

unfoldable pub pte_ppn : ℕ → ℕ
pte_ppn pte = pte / 2 ^ ppn_shift

unfoldable pub ptd_create : ℕ → ℕ
ptd_create ppn = bit_or (u64 (ppn * 2 ^ ppn_shift)) (bit_or pte_v type_table)

-- The type of a user page, and of a page of the kernel, where PROT_NONE fails an assertion.
unfoldable pub user_type : ℕ → ℕ
user_type prot =
    if prot == 0
    then type_sr
    else if prot == 1
    then type_ur_sr
    else if prot == 2
    then type_urw_srw
    else if prot == 4
    then type_urx_srx
    else if prot == 3
    then type_urw_srw
    else if prot == 5
    then type_urx_srx
    else type_urwx_srwx

unfoldable pub kernel_type : ℕ → ℕ
kernel_type prot =
    if prot == 1
    then type_sr
    else if prot == 2
    then type_srw
    else if prot == 4
    then type_srx
    else if prot == 3
    then type_srw
    else if prot == 5
    then type_srx
    else type_srwx

-- pte_create for a user, and for the kernel with a protection that is not PROT_NONE.
unfoldable pub pte_create_user : ℕ → ℕ → ℕ
unfolding user_type
pte_create_user ppn prot =
    bit_or (bit_or (u64 (ppn * 2 ^ ppn_shift)) pte_v) (user_type (bit_and prot 7))

unfoldable pub pte_create_kernel : ℕ → ℕ → ℕ
unfolding kernel_type
pte_create_kernel ppn prot =
    bit_or (bit_or (u64 (ppn * 2 ^ ppn_shift)) pte_v) (kernel_type (bit_and prot 7))

unfoldable pub ppn : ℕ → ℕ
ppn addr = addr / 2 ^ pgshift

unfoldable pub pt_idx : ℕ → ℕ → ℕ
pt_idx addr level = bit_and (addr / 2 ^ (pglevel_bits * level + pgshift)) (2 ^ pglevel_bits - 1)
