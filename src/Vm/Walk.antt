-- ===== src/Vm/Walk.antt =====
-- The walk through the three levels of page tables, and the search for free addresses, bbl/vm.c.
use lowrisc_kc.Base.{
  ℕ, zero, suc, ◌+◌, ◌-◌, ◌*◌, ◌/◌, ◌^◌, Bool, true, false, ◌||◌, bit_and, ltb, leb, ◌==◌,
  if◌then◌else◌, u64,
}
use lowrisc_kc.Base.Outcome.{Outcome, returned, panicked, ◌>>=◌, store}
use lowrisc_kc.Vm.Pte.{pgsize, pgshift, pte_v, pte_table, pte_ppn, ptd_create, ppn, pt_idx}
use lowrisc_kc.Vm.State.{Vm, page_alloc}

module _ {V F : Type 0} where
  unfoldable pub set_word : ℕ → ℕ → Vm V F → Vm V F
  set_word p value s = record s { word = store s.word p value }

  unfoldable pub maybe_create_root_page_table : Vm V F → Outcome (Vm V F)
  unfolding page_alloc
  maybe_create_root_page_table s =
      if s.root_page_table == 0
      then (page_alloc s >>= λ r. returned (record (r.0) { root_page_table = r.1 }))
      else returned s

  -- The table that the entry at `slot` points to, made if it is not there; false is NULL.
  unfoldable pub step_down : Bool → ℕ → Vm V F → Outcome (Vm V F × Bool)
  unfolding page_alloc ptd_create ppn set_word pte_table
  step_down create slot s =
      if bit_and (s.word slot) pte_v == 0
      then (if create
          then (page_alloc s >>= λ r. returned (set_word slot (ptd_create (ppn (r.1))) (r.0), true))
          else returned (s, false))
      else if pte_table (s.word slot) == 0
      then panicked
      else returned (s, true)

  -- The loop over the levels, on the levels that are left, from the table `t`.
  unfoldable pub walk_from : Bool → ℕ → ℕ → ℕ → Vm V F → Outcome (Vm V F × ℕ)
  unfolding step_down pte_ppn pt_idx
  walk_from create zero addr t s = returned (s, u64 (t + 8 * pt_idx addr 0))
  walk_from create (suc level) addr t s =
      let slot = u64 (t + 8 * pt_idx addr (suc level)) in
      step_down create slot s >>= λ r. elim (r.1) [
        | true ↦ walk_from create level addr (u64 (pte_ppn ((r.0).word slot) * 2 ^ pgshift)) (r.0)
        | false ↦ returned (r.0, 0)
      ]

  -- __walk and __walk_create: the address of the entry, or NULL.
  unfoldable pub walk_internal : Bool → ℕ → Vm V F → Outcome (Vm V F × ℕ)
  unfolding maybe_create_root_page_table walk_from
  walk_internal create addr s =
      maybe_create_root_page_table s >>= λ t. walk_from create 2 addr t.root_page_table t

  unfoldable pub va_avail : ℕ → Vm V F → Outcome (Vm V F × Bool)
  unfolding walk_internal
  va_avail vaddr s =
      walk_internal false vaddr s >>= λ r. returned (r.0, (r.1 == 0) || ((r.0).word (r.1) == 0))

  -- The inner loop: back from `a` to `first` over addresses that are free.
  unfoldable pub back_over : ℕ → ℕ → ℕ → Vm V F → Outcome (Vm V F × ℕ)
  unfolding va_avail
  back_over zero first a s = returned (s, a)
  back_over (suc rounds) first a s = elim (ltb first a) [
    | false ↦ returned (s, a)
    | true ↦ va_avail a s >>= λ r. elim (r.1) [
      | true ↦ back_over rounds first (u64 (a + 2 ^ 64 - pgsize)) (r.0)
      | false ↦ returned (r.0, a)
    ]
  ]

  unfoldable pub alloc_from : ℕ → ℕ → ℕ → ℕ → Vm V F → Outcome (Vm V F × ℕ)
  unfolding va_avail back_over
  alloc_from zero npage end a s = returned (s, 0)
  alloc_from (suc rounds) npage end a s = elim (leb a end) [
    | false ↦ returned (s, 0)
    | true ↦ va_avail a s >>= λ r. elim (r.1) [
      | false ↦ alloc_from rounds npage end (u64 (a + pgsize)) (r.0)
      | true ↦ back_over npage a (u64 (a + (npage - 1) * pgsize)) (r.0) >>= λ b.
          elim (ltb a (b.1)) [
            | true ↦ alloc_from rounds npage end (u64 (b.1 + pgsize)) (b.0)
            | false ↦ returned b
          ]
    ]
  ]

  -- Addresses for `npage` pages, or 0. There is a round for each page up to the end.
  unfoldable pub vm_alloc : ℕ → Vm V F → Outcome (Vm V F × ℕ)
  unfolding alloc_from
  vm_alloc npage s =
      let end = u64 (s.mmap_max + 2 ^ 64 - u64 (npage * pgsize)) in
      alloc_from ((end - s.brk) / pgsize + 1) npage end s.brk s
