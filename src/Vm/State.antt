-- ===== src/Vm/State.antt =====
-- The state of bbl/vm.c: memory by words, the page allocator, the mapped regions and the fields of
-- `current` of bbl/bbl.h that it uses. The file table is that of bbl/file.c. On one hart the lock
-- has no effect, and neither has flush_tlb.
use lowrisc_kc.Base.{
  ℕ, zero, suc, ◌+◌, ◌-◌, ◌*◌, ◌/◌, ◌^◌, Bool, true, false, ◌&&◌, Option, none, some, ltb, leb,
  ◌==◌, if◌then◌else◌, u32, u64,
}
use lowrisc_kc.Base.Outcome.{Outcome, returned, panicked, ◌>>=◌, store}
use lowrisc_kc.Files.{FatFs, Table, file_incref, file_decref}
use lowrisc_kc.Vm.Pte.{pgsize}

-- vmr_t. `file` is the index of a file.
pub record Vmr : Type 0 where
  pub addr : ℕ
  pub length : ℕ
  pub file : Option ℕ
  pub offset : ℕ
  pub refcnt : ℕ
  pub prot : ℕ

-- `word` is the word at an address that is a multiple of 8, as page tables are read; `byte` is
-- the content of user pages, which hold no tables. `vmr` is the region at an address. `vmrs` is 0 until the table of regions has been made.
pub record Vm (V F : Type 0) : Type 0 where
  pub word : ℕ → ℕ
  pub byte : ℕ → ℕ
  pub vmr : ℕ → Vmr
  pub vmrs : ℕ
  pub root_page_table : ℕ
  pub first_free_page : ℕ
  pub next_free_page : ℕ
  pub free_pages : ℕ
  pub first_free_paddr : ℕ
  pub mmap_max : ℕ
  pub brk_min : ℕ
  pub brk : ℕ
  pub brk_max : ℕ
  pub table : Table V F

-- sizeof(vmr_t) and MAX_VMR.
abbrev pub vmr_size : ℕ
vmr_size = 40

abbrev pub max_vmr : ℕ
max_vmr = pgsize / vmr_size

-- A region of a page that is all zeros.
abbrev pub no_vmr : Vmr
no_vmr = record { addr = 0; length = 0; file = none; offset = 0; refcnt = 0; prot = 0 }

unfoldable pub in_page : ℕ → ℕ → Bool
in_page page a = leb page a && ltb a (page + pgsize)

module _ {V F : Type 0} where
  -- The next page, cleared. A page of zeros is also a table of regions that are not in use.
  unfoldable pub page_alloc : Vm V F → Outcome (Vm V F × ℕ)
  unfolding in_page
  page_alloc s =
      if s.next_free_page == s.free_pages
      then panicked
      else (let addr = u64 (s.first_free_page + pgsize * s.next_free_page) in
          returned (
            record s {
              next_free_page = s.next_free_page + 1;
              word = λ a. if in_page addr a then 0 else s.word a;
              vmr = λ a. if in_page addr a then no_vmr else s.vmr a;
            },
            addr,
          ))

  unfoldable pub vmrs_created : Vm V F → Outcome (Vm V F)
  unfolding page_alloc
  vmrs_created s =
      if s.vmrs == 0
      then (page_alloc s >>= λ r. returned (record (r.0) { vmrs = r.1 }))
      else returned s

  -- `if (file) file_incref(file);`
  unfoldable pub file_kept : Option ℕ → Vm V F → Outcome (Vm V F)
  unfolding file_incref
  file_kept none s = returned s
  file_kept (some f) s = file_incref f s.table >>= λ t. returned (record s { table = t })

  -- The loop over the regions from `v`, for those that are left: the first that is not in use.
  unfoldable pub free_vmr : ℕ → ℕ → Vm V F → Option ℕ
  free_vmr zero v s = none
  free_vmr (suc left) v s = elim ((s.vmr v).refcnt == 0) [
    | true ↦ some v
    | false ↦ free_vmr left (v + vmr_size) s
  ]

  -- The region is stored at the free place; without one the result is NULL.
  unfoldable pub vmr_placed : Vmr → Option ℕ → Vm V F → Outcome (Vm V F × ℕ)
  unfolding file_kept
  vmr_placed region none s = returned (s, 0)
  vmr_placed region (some v) s =
      file_kept region.file s >>= λ t. returned (record t { vmr = store t.vmr v region }, v)

  unfoldable pub vmr_alloc : Vmr → Vm V F → Outcome (Vm V F × ℕ)
  unfolding vmrs_created free_vmr vmr_placed
  vmr_alloc region s = vmrs_created s >>= λ t. vmr_placed region (free_vmr max_vmr t.vmrs t) t

  unfoldable pub file_dropped : FatFs V F → Option ℕ → Vm V F → Vm V F
  unfolding file_decref
  file_dropped fat none s = s
  file_dropped fat (some f) s = record s { table = file_decref fat f s.table }

  unfoldable pub vmr_decref : FatFs V F → ℕ → ℕ → Vm V F → Vm V F
  unfolding file_dropped
  vmr_decref fat v dec s =
      let left = u32 ((s.vmr v).refcnt + 2 ^ 32 - dec) in
      let t = record s { vmr = store s.vmr v (record (s.vmr v) { refcnt = left }) } in
      if left == 0 then file_dropped fat ((s.vmr v).file) t else t

  unfoldable pub valid_user_range : ℕ → ℕ → Vm V F → Bool
  valid_user_range vaddr len s =
      if ltb (u64 (vaddr + len)) vaddr
      then false
      else leb s.first_free_paddr vaddr && leb (u64 (vaddr + len)) s.mmap_max
