-- ===== src/Vm/Pages.antt =====
-- Page faults and the removal of pages, bbl/vm.c.
use lowrisc_kc.Base.{
  ℕ, zero, suc, ◌+◌, ◌-◌, ◌*◌, ◌/◌, ◌^◌, Bool, true, false, not, ◌||◌, Option, none, some, List, [],
  length, get_or, bit_and, ltb, min, ◌==◌, if◌then◌else◌, u64,
}
use lowrisc_kc.Base.Outcome.{Outcome, returned, panicked, ◌>>=◌}
use lowrisc_kc.Files.{FatFs, file_pread}
use lowrisc_kc.Vm.Pte.{pgsize, pgshift, pte_v, pte_create_user, pte_create_kernel}
use lowrisc_kc.Vm.State.{Vm, Vmr, in_page, vmr_decref, valid_user_range}
use lowrisc_kc.Vm.Walk.{set_word, walk_internal}

module _ {V F : Type 0} (fat : FatFs V F) where
  -- A page with the bytes that were read, and zeros behind them.
  unfoldable pub fill : ℕ → List ℕ → Vm V F → Vm V F
  unfolding in_page
  fill vaddr bytes s = record s {
    byte = λ a. if in_page vaddr a then get_or bytes (a - vaddr) 0 else s.byte a;
  }

  -- The content of a page of a region: of its file, from which at least a byte must come, or zeros.
  unfoldable pub load_page : ℕ → Vmr → Option ℕ → Vm V F → Outcome (Vm V F)
  unfolding file_pread fill
  load_page vaddr v none s = returned (fill vaddr [] s)
  load_page vaddr v (some f) s =
      let into = u64 (vaddr + 2 ^ 64 - v.addr) in
      let flen = min pgsize (u64 (v.length + 2 ^ 64 - into)) in
      file_pread fat f flen (u64 (into + v.offset)) s.table >>= λ r.
      if ltb 0 (length (r.1))
      then returned (fill vaddr (r.1) (record s { table = r.0 }))
      else panicked

  -- A page that has not been touched: its entry is the address of its region.
  unfoldable pub first_touch : ℕ → ℕ → ℕ → Vm V F → Outcome (Vm V F)
  unfolding set_word load_page vmr_decref pte_create_user pte_create_kernel
  first_touch vpn vaddr pte s =
      let at = s.word pte in
      let v = s.vmr at in
      load_page vaddr v v.file (set_word pte (pte_create_kernel vpn 3) s) >>= λ t.
      let u = vmr_decref fat at 1 t in
      returned (set_word pte (pte_create_user vpn (u.vmr at).prot) u)

  -- `(*pte & perms) == perms`.
  unfoldable pub permits : ℕ → ℕ → Vm V F → Bool
  unfolding pte_create_user
  permits pte prot s = let perms = pte_create_user 0 prot in bit_and (s.word pte) perms == perms

  unfoldable pub fault_at : ℕ → ℕ → ℕ → ℕ → Vm V F → Outcome (Vm V F × Bool)
  unfolding first_touch permits valid_user_range
  fault_at vpn vaddr prot pte s =
      if (pte == 0) || (s.word pte == 0) || not (valid_user_range vaddr 1 s)
      then returned (s, false)
      else if bit_and (s.word pte) pte_v == 0
      then (first_touch vpn vaddr pte s >>= λ t. returned (t, permits pte prot t))
      else returned (s, permits pte prot s)

  -- True for the result 0, false for -1.
  unfoldable pub handle_page_fault : ℕ → ℕ → Vm V F → Outcome (Vm V F × Bool)
  unfolding walk_internal fault_at
  handle_page_fault vaddr prot s =
      let vpn = vaddr / 2 ^ pgshift in
      let page = vpn * 2 ^ pgshift in
      walk_internal false page s >>= λ r. fault_at vpn page prot (r.1) (r.0)

  -- A page loses its entry, and its region the page if it was not touched.
  unfoldable pub unmap_at : ℕ → Vm V F → Vm V F
  unfolding set_word vmr_decref
  unmap_at pte s =
      if (pte == 0) || (s.word pte == 0)
      then s
      else set_word pte 0
          (if bit_and (s.word pte) pte_v == 0 then vmr_decref fat (s.word pte) 1 s else s)

  -- The loop from `a`, with a round for each page.
  unfoldable pub munmap_loop : ℕ → ℕ → ℕ → Vm V F → Outcome (Vm V F)
  unfolding walk_internal unmap_at
  munmap_loop zero a end s = returned s
  munmap_loop (suc rounds) a end s = elim (ltb a end) [
    | false ↦ returned s
    | true ↦ walk_internal false a s >>= λ r.
        munmap_loop rounds (u64 (a + pgsize)) end (unmap_at (r.1) (r.0))
  ]

  unfoldable pub munmap_pages : ℕ → ℕ → Vm V F → Outcome (Vm V F)
  unfolding munmap_loop
  munmap_pages addr len s = munmap_loop ((len + pgsize - 1) / pgsize) addr (u64 (addr + len)) s

  -- The result is 0 or -EINVAL.
  unfoldable pub do_munmap : ℕ → ℕ → Vm V F → Outcome (Vm V F × ℕ)
  unfolding valid_user_range munmap_pages
  do_munmap addr len s =
      if not (bit_and addr (pgsize - 1) == 0) || not (valid_user_range addr len s)
      then returned (s, 2 ^ 64 - 22)
      else (munmap_pages addr len s >>= λ t. returned (t, 0))
