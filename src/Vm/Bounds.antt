-- ===== src/Vm/Bounds.antt =====
-- The range of user addresses, bbl/vm.c.
use lowrisc_kc.Base.{ℕ, ◌+◌, ◌≤◌, ◌<◌, ◌^◌, ◌≡◌, ◌↔◌, true, arith}
use lowrisc_kc.Vm.State.{Vm, valid_user_range}

module _ {V F : Type 0} where
  -- A range of user addresses is accepted exactly when it lies between the first free address and
  -- the end of the mappings and does not wrap around, for an address, a length and an end below
  -- 2^64.
  pub valid_user_range_iff :
      (vaddr len : ℕ) (s : Vm V F)
      → vaddr < 2 ^ 64
      → len < 2 ^ 64
      → s.mmap_max < 2 ^ 64
      → (valid_user_range vaddr len s ≡ true)
        ↔ ((s.first_free_paddr ≤ vaddr) × (vaddr + len ≤ s.mmap_max))
  unfolding valid_user_range
  valid_user_range_iff vaddr len s h k b = (λ v. ground arith, λ v. ground arith)
