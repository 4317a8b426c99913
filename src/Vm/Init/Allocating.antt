-- ===== src/Vm/Init/Allocating.antt =====
-- The pages that the allocator of bbl/vm.c hands out after vm_init.
use lowrisc_kc.Base.{
  ℕ, zero, suc, ◌+◌, ◌-◌, ◌*◌, ◌/◌, ◌^◌, ◌≤◌, ◌<◌, ◌≡◌, refl, ◌∙◌, false, ◌&&◌, List, [], ◌∷◌, ltb,
  leb, ◌==◌, if◌then◌else◌, u64, arith,
}
use lowrisc_kc.Base.Outcome.{Outcome, returned, ◌>>=◌}
use lowrisc_kc.Vm.Pte.{pgsize}
use lowrisc_kc.Vm.State.{Vm, page_alloc, in_page, no_vmr}
use lowrisc_kc.Vm.Init.{vm_init, max}

-- Addresses that stand one page apart.
abbrev pub pages_from : ℕ → ℕ → List ℕ
pages_from a zero = []
pages_from a (suc n) = a ∷ pages_from (a + pgsize) n

-- Memory by words with `n` pages from `a` cleared.
abbrev pub cleared : ℕ → ℕ → (ℕ → ℕ) → ℕ → ℕ
cleared a n mem b = if leb a b && ltb b (a + pgsize * n) then 0 else mem b

cleared-page :
    (a n : ℕ) (mem : ℕ → ℕ) (b : ℕ)
    → cleared (a + pgsize) n (λ c. if in_page a c then 0 else mem c) b ≡ cleared a (suc n) mem b
unfolding in_page
cleared-page a n mem b = ground arith

cleared_zero : (a : ℕ) (mem : ℕ → ℕ) (b : ℕ) → mem b ≡ cleared a 0 mem b
cleared_zero a mem b = ground arith

max_pages : (m : ℕ) → 8 * pgsize ≤ m → max 8 (m / 2 ^ 12 / 2 ^ 8) * pgsize ≤ m
unfolding max
max_pages m h = ground arith

first_page :
    (m f : ℕ) → f * pgsize ≤ m → m < 2 ^ 64 → u64 (m + 2 ^ 64 - u64 (f * pgsize)) + pgsize * f ≡ m
first_page m f h k =
    let e : u64 (f * pgsize) ≡ f * pgsize = omega (arith, h, k) in rw e (omega (arith, h, k))

no_pages : (f i : ℕ) → i ≡ 0 → f + pgsize * i ≡ f
no_pages f i h = omega (arith, h)

module _ {V F : Type 0} where
  -- `n` calls of __page_alloc, and their results.
  unfoldable pub pages_alloc : ℕ → Vm V F → Outcome (Vm V F × List ℕ)
  unfolding page_alloc
  pages_alloc zero s = returned (s, [])
  pages_alloc (suc n) s =
      page_alloc s >>= λ r. pages_alloc n (r.0) >>= λ q. returned (q.0, r.1 ∷ q.1)

  -- The state after the page at `a` has been taken.
  abbrev taken : ℕ → Vm V F → Vm V F
  taken a s = record s {
    next_free_page = s.next_free_page + 1;
    word = λ b. if in_page a b then 0 else s.word b;
    vmr = λ b. if in_page a b then no_vmr else s.vmr b;
  }

  page_alloc-taken :
      (a : ℕ) (s : Vm V F)
      → s.first_free_page + pgsize * s.next_free_page ≡ a
      → a < 2 ^ 64
      → suc s.next_free_page ≤ s.free_pages
      → page_alloc s ≡ returned (taken a s, a)
  unfolding page_alloc
  page_alloc-taken a s e h k =
      let more : (s.next_free_page == s.free_pages) ≡ false = ground (arith, k) in
      let u : u64 (s.first_free_page + pgsize * s.next_free_page) ≡ a = omega (arith, e, h) in
      rw (more, u) refl

  pages_alloc_lem :
      (n a : ℕ) (s : Vm V F)
      → s.first_free_page + pgsize * s.next_free_page ≡ a
      → s.next_free_page + n ≤ s.free_pages
      → a + pgsize * n < 2 ^ 64
      → (t : Vm V F) × (pages_alloc n s ≡ returned (t, pages_from a n))
        × ((b : ℕ) → t.word b ≡ cleared a n s.word b)
  unfolding pages_alloc
  pages_alloc_lem zero a s e h k = (s, refl, cleared_zero a s.word)
  pages_alloc_lem (suc n) a s e h k =
      let p = page_alloc-taken a s e (omega (arith, k)) (omega (arith, h)) in
      let (t, w, m) =
        pages_alloc_lem n (a + pgsize) (taken a s) (omega (arith, e)) (omega (arith, h))
          (omega (arith, k)) in
      (t, rw (p, w) refl, λ b. m b ∙ cleared-page a n s.word b)

  -- After vm_init in a memory of at least 8 pages, the calls of __page_alloc, up to the number of
  -- free pages, return pages that follow each other, above what user mappings may use and within
  -- memory; they have been cleared, and no other word was changed.
  pub vm_init-pages_alloc :
      (n top num_harts mem_size : ℕ) (s : Vm V F)
      → s.next_free_page ≡ 0
      → 8 * pgsize ≤ mem_size
      → mem_size < 2 ^ 64
      → n ≤ (vm_init top num_harts mem_size s).free_pages
      → (a : ℕ) × (t : Vm V F) × (pages_alloc n (vm_init top num_harts mem_size s)
          ≡ returned (t, pages_from a n))
        × ((vm_init top num_harts mem_size s).mmap_max ≤ a)
        × (a + pgsize * n ≤ mem_size)
        × ((b : ℕ) → t.word b ≡ cleared a n s.word b)
  unfolding vm_init
  vm_init-pages_alloc n top num_harts mem_size s z h k l =
      let v = vm_init top num_harts mem_size s in
      let f = max 8 (mem_size / 2 ^ 12 / 2 ^ 8) in
      let e : v.first_free_page + pgsize * f ≡ mem_size =
        first_page mem_size f (max_pages mem_size h) k in
      let (t, w, m) =
        pages_alloc_lem n v.first_free_page v (no_pages v.first_free_page s.next_free_page z)
          (omega (arith, z, l)) (omega (arith, e, k, l)) in
      (v.first_free_page, t, w, omega arith, omega (arith, e, l), m)
