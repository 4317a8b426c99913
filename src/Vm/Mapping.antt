-- ===== src/Vm/Mapping.antt =====
-- Mappings, the program break and protections, bbl/vm.c.
use lowrisc_kc.Base.{
  ℕ, zero, suc, ◌+◌, ◌-◌, ◌*◌, ◌/◌, ◌^◌, Bool, true, false, not, ◌&&◌, ◌||◌, Option, none, some,
  bit_and, bit_or, ltb, ◌==◌, if◌then◌else◌, u64,
}
use lowrisc_kc.Base.Outcome.{Outcome, returned, panicked, ◌>>=◌, store}
use lowrisc_kc.Files.{FatFs}
use lowrisc_kc.Vm.Pte.{pgsize, pte_v, pte_uw, pte_ux, pte_ppn, pte_create_user}
use lowrisc_kc.Vm.State.{Vm, vmr_alloc, valid_user_range}
use lowrisc_kc.Vm.Walk.{set_word, walk_internal, vm_alloc}
use lowrisc_kc.Vm.Pages.{handle_page_fault, munmap_pages}

abbrev pub map_private : ℕ
map_private = 0x2

abbrev pub map_fixed : ℕ
map_fixed = 0x10

abbrev pub map_anonymous : ℕ
map_anonymous = 0x20

abbrev pub map_populate : ℕ
map_populate = 0x8000

-- (uintptr_t)-1, -EINVAL, -EBADF, -ENOMEM and -EACCES.
abbrev pub failed : ℕ
failed = 2 ^ 64 - 1

abbrev pub einval : ℕ
einval = 2 ^ 64 - 22

abbrev pub ebadf : ℕ
ebadf = 2 ^ 64 - 9

abbrev pub enomem : ℕ
enomem = 2 ^ 64 - 12

abbrev pub eacces : ℕ
eacces = 2 ^ 64 - 13

-- `x & flag` as a condition.
abbrev pub has_flag : ℕ → ℕ → Bool
has_flag x flag = not (bit_and x flag == 0)

-- ROUNDUP(x, RISCV_PGSIZE).
unfoldable pub round_up : ℕ → ℕ
round_up x = u64 ((u64 (x + 2 ^ 64 - 1) / pgsize + 1) * pgsize)

-- What the end of do_mprotect makes of an entry: an error, or the new state.
pub data Protected {ℓ} (A : Type ℓ) : Type ℓ where
  changed : A → Protected A
  refused : ℕ → Protected A

module _ {V F : Type 0} (fat : FatFs V F) where
  -- The entries of the pages from `a` get the address of the region, the old pages go.
  unfoldable pub map_loop : ℕ → ℕ → ℕ → ℕ → Vm V F → Outcome (Vm V F)
  unfolding walk_internal munmap_pages set_word
  map_loop zero a end v s = returned s
  map_loop (suc rounds) a end v s = elim (ltb a end) [
    | false ↦ returned s
    | true ↦ walk_internal true a s >>= λ r.
        (if (r.0).word (r.1) == 0 then returned (r.0) else munmap_pages fat a pgsize (r.0)) >>= λ t.
        map_loop rounds (u64 (a + pgsize)) end v (set_word (r.1) v t)
  ]

  unfoldable pub populate_loop : ℕ → ℕ → ℕ → ℕ → Vm V F → Outcome (Vm V F)
  unfolding handle_page_fault
  populate_loop zero a end prot s = returned s
  populate_loop (suc rounds) a end prot s = elim (ltb a end) [
    | false ↦ returned s
    | true ↦ handle_page_fault fat a prot s >>= λ r. elim (r.1) [
      | true ↦ populate_loop rounds (u64 (a + pgsize)) end prot (r.0)
      | false ↦ panicked
    ]
  ]

  -- The part after the addresses have been chosen. `have_vm` is 1.
  unfoldable pub map_at : ℕ → ℕ → ℕ → ℕ → Option ℕ → ℕ → Vm V F → Outcome (Vm V F × ℕ)
  unfolding vmr_alloc map_loop populate_loop
  map_at addr len prot flags f offset s =
      let npage = (len - 1) / pgsize + 1 in
      let end = u64 (addr + len) in
      vmr_alloc
        (record {
          addr = addr;
          length = len;
          file = f;
          offset = offset;
          refcnt = npage;
          prot = prot;
        })
        s
      >>= λ r.
          if r.1 == 0
          then returned (r.0, failed)
          else (map_loop npage addr end (r.1) (r.0) >>= λ t.
              (if has_flag flags map_populate
                then populate_loop npage addr end prot t
                else returned t)
              >>= λ u. returned (u, addr))

  unfoldable pub mmap_pages : ℕ → ℕ → ℕ → ℕ → Option ℕ → ℕ → Vm V F → Outcome (Vm V F × ℕ)
  unfolding valid_user_range vm_alloc map_at
  mmap_pages addr len prot flags f offset s =
      if has_flag flags map_fixed
      then (if not (bit_and addr (pgsize - 1) == 0) || not (valid_user_range addr len s)
          then returned (s, failed)
          else map_at addr len prot flags f offset s)
      else (vm_alloc ((len - 1) / pgsize + 1) s >>= λ r.
          if r.1 == 0 then returned (r.0, failed) else map_at (r.1) len prot flags f offset (r.0))

  unfoldable pub do_mmap : ℕ → ℕ → ℕ → ℕ → Option ℕ → ℕ → Vm V F → Outcome (Vm V F × ℕ)
  unfolding mmap_pages
  do_mmap addr len prot flags f offset s =
      if not (has_flag flags map_private) || (len == 0) || not (bit_and offset (pgsize - 1) == 0)
      then returned (s, einval)
      else if not (has_flag flags map_anonymous) && elim f [ none ↦ true | some i ↦ false ]
      then returned (s, ebadf)
      else (mmap_pages addr len prot flags f offset s >>= λ r.
          returned (if ltb (r.1) (r.0).brk_max then record (r.0) { brk_max = r.1 } else r.0, r.1))

  -- The pages between the old break and the new one are taken off or mapped.
  unfoldable pub move_brk : ℕ → Vm V F → Outcome (Vm V F)
  unfolding munmap_pages mmap_pages
  move_brk newbrk_page s =
      if ltb newbrk_page s.brk
      then munmap_pages fat newbrk_page (s.brk - newbrk_page) s
      else if ltb s.brk newbrk_page
      then (mmap_pages s.brk (newbrk_page - s.brk) (2 ^ 32 - 1)
            (bit_or map_fixed (bit_or map_private map_anonymous)) none 0 s
          >>= λ r. if r.1 == s.brk then returned (r.0) else panicked)
      else returned s

  unfoldable pub do_brk : ℕ → Vm V F → Outcome (Vm V F × ℕ)
  unfolding round_up move_brk
  do_brk addr s =
      let newbrk =
        if ltb addr s.brk_min then s.brk_min else if ltb s.brk_max addr then s.brk_max else addr in
      let t = if s.brk == 0 then record s { brk = round_up s.brk_min } else s in
      move_brk (round_up newbrk) t >>= λ u. returned (record u { brk = round_up newbrk }, newbrk)

module _ {V F : Type 0} where
  -- A page of do_mprotect: not mapped, not touched, or there. The error is -ENOMEM or -EACCES.
  unfoldable pub protect_at : ℕ → ℕ → Vm V F → Protected (Vm V F)
  unfolding pte_uw pte_ux pte_create_user pte_ppn set_word
  protect_at pte prot s =
      let entry = s.word pte in
      if (pte == 0) || (entry == 0)
      then refused enomem
      else if bit_and entry pte_v == 0
      then (let v = s.vmr entry in
          if bit_and prot v.prot == prot
          then changed (record s { vmr = store s.vmr entry (record v { prot = prot }) })
          else refused eacces)
      else if (has_flag prot 2 && (pte_uw entry == 0)) || (has_flag prot 4 && (pte_ux entry == 0))
      then refused eacces
      else changed (set_word pte (pte_create_user (pte_ppn entry) prot) s)

  unfoldable pub protect_loop : ℕ → ℕ → ℕ → ℕ → Vm V F → Outcome (Vm V F × ℕ)
  unfolding walk_internal protect_at
  protect_loop zero a end prot s = returned (s, 0)
  protect_loop (suc rounds) a end prot s = elim (ltb a end) [
    | false ↦ returned (s, 0)
    | true ↦ walk_internal false a s >>= λ r. elim (protect_at (r.1) prot (r.0)) [
      | refused e ↦ returned (r.0, e)
      | changed t ↦ protect_loop rounds (u64 (a + pgsize)) end prot t
    ]
  ]

  unfoldable pub do_mprotect : ℕ → ℕ → ℕ → Vm V F → Outcome (Vm V F × ℕ)
  unfolding protect_loop
  do_mprotect addr len prot s =
      if not (bit_and addr (pgsize - 1) == 0)
      then returned (s, einval)
      else protect_loop ((len + pgsize - 1) / pgsize) addr (u64 (addr + len)) prot s
