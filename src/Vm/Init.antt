-- ===== src/Vm/Init.antt =====
-- The start of virtual memory, bbl/vm.c: the pages that the allocator hands out, the mappings of
-- the kernel, and those that pk_vm_init makes. `top` is sbi_top_paddr(), the end of the image rounded up to
-- a page.
pub mod Allocating
use lowrisc_kc.Base.{
  ℕ, zero, suc, ◌+◌, ◌-◌, ◌*◌, ◌/◌, ◌^◌, Bool, true, false, none, bit_or, ltb, min, ◌==◌,
  if◌then◌else◌, u64,
}
use lowrisc_kc.Base.Outcome.{Outcome, returned, panicked, ◌>>=◌}
use lowrisc_kc.Files.{FatFs}
use lowrisc_kc.Vm.Pte.{pgsize, pgshift, pglevel_bits, pte_create_kernel}
use lowrisc_kc.Vm.State.{Vm, page_alloc}
use lowrisc_kc.Vm.Walk.{set_word, walk_internal}
use lowrisc_kc.Vm.Mapping.{round_up, mmap_pages, map_private, map_fixed, map_anonymous, failed}

-- MAX and CLAMP of bbl/bbl.h.
unfoldable pub max : ℕ → ℕ → ℕ
max a b = if ltb b a then a else b

unfoldable pub clamp : ℕ → ℕ → ℕ → ℕ
unfolding max
clamp a lo hi = min (max a lo) hi

module _ {V F : Type 0} where
  unfoldable pub vm_init : ℕ → ℕ → ℕ → Vm V F → Vm V F
  unfolding max
  vm_init top num_harts mem_size s =
      let free_pages = max 8 (mem_size / 2 ^ pgshift / 2 ^ (pglevel_bits - 1)) in
      let first_free_page = u64 (mem_size + 2 ^ 64 - u64 (free_pages * pgsize)) in
      record s {
        first_free_paddr = u64 (top + num_harts * pgsize);
        free_pages = free_pages;
        first_free_page = first_free_page;
        brk_max = first_free_page;
        mmap_max = first_free_page;
      }

  -- The loop of __map_kernel_range, on the pages that are left from `a`.
  unfoldable pub map_kernel_loop : ℕ → ℕ → ℕ → ℕ → ℕ → Vm V F → Outcome (Vm V F)
  unfolding walk_internal set_word pte_create_kernel
  map_kernel_loop zero a vaddr paddr prot s = returned s
  map_kernel_loop (suc left) a vaddr paddr prot s = walk_internal true a s >>= λ r.
      elim (r.1 == 0) [
        | true ↦ panicked
        | false ↦ map_kernel_loop left (u64 (a + pgsize)) vaddr paddr prot (
            set_word (r.1)
              (pte_create_kernel (u64 (u64 (a + 2 ^ 64 - vaddr) + paddr) / 2 ^ pgshift) prot) (r.0))
      ]

  unfoldable pub map_kernel_range : ℕ → ℕ → ℕ → ℕ → Vm V F → Outcome (Vm V F)
  unfolding map_kernel_loop round_up
  map_kernel_range vaddr paddr len prot s =
      map_kernel_loop (round_up len / pgsize) vaddr vaddr paddr prot s

-- The fields of `current` that pk_vm_init sets, and its result.
pub record Stacks : Type 0 where
  pub stack_bottom : ℕ
  pub stack_top : ℕ
  pub kernel_stack_top : ℕ

module _ {V F : Type 0} (fat : FatFs V F) where
  -- From the choice of the stack on.
  unfoldable pub stacks_mapped : ℕ → Vm V F → Outcome (Vm V F × Stacks)
  unfolding clamp mmap_pages page_alloc
  stacks_mapped mem_size s =
      let stack_size = pgsize * clamp (mem_size / (pgsize * 32)) 1 256 in
      mmap_pages fat (u64 (s.mmap_max + 2 ^ 64 - stack_size)) stack_size 7
        (bit_or map_private (bit_or map_anonymous map_fixed)) none 0 s
      >>= λ r.
          if r.1 == failed
          then panicked
          else (page_alloc (r.0) >>= λ k. returned (
            k.0,
            record {
              stack_bottom = r.1;
              stack_top = u64 (r.1 + stack_size);
              kernel_stack_top = u64 (k.1 + pgsize);
            },
          ))

  unfoldable pub pk_vm_init : Bool → ℕ → Vm V F → Outcome (Vm V F × Stacks)
  unfolding map_kernel_range stacks_mapped
  pk_vm_init elf64 mem_size s =
      let t = if elf64 then s else record s { mmap_max = min s.mmap_max 0x80000000 } in
      map_kernel_range 0 0 t.first_free_paddr 7 t >>= λ u.
      map_kernel_range u.first_free_page u.first_free_page (u64 (u.free_pages * pgsize)) 3 u
      >>= λ v. stacks_mapped mem_size v
