-- ===== src/Vm/Tests.antt =====
-- Page table entries and an address space, and the theorems on them.
use lowrisc_kc.Base.{
  ◌^◌, ◌-◌, ◌↔◌, ℕ, ◌+◌, ◌%◌, ◌/◌, ◌≡◌, ◌≤◌, ◌*◌, refl, true, false, inr, [], ◌==◌, if◌then◌else◌,
  arith,
}
use lowrisc_kc.Base.Outcome.{returned}
use lowrisc_kc.Files.{FatFs}
use lowrisc_kc.Vm.Pte.{pte_create_user, pte_ppn, pte_ur, pte_uw, pte_ux}
use lowrisc_kc.Vm.Pte.Permissions.{pte_create_user_rights}
use lowrisc_kc.Vm.State.{Vm, no_vmr, valid_user_range}
use lowrisc_kc.Vm.Pages.{fault_at}
use lowrisc_kc.Vm.Faults.{fault_at-resident}
use lowrisc_kc.Vm.Bounds.{valid_user_range_iff}
use lowrisc_kc.Vm.Init.{vm_init, max}
use lowrisc_kc.Vm.Init.Allocating.{pages_from, pages_alloc, cleared, vm_init-pages_alloc}

abbrev no_files : FatFs ℕ ℕ
no_files = record {
  f_open = λ fn mode v. (v, 0, 1);
  f_close = λ f v. (v, f);
  f_lseek = λ f p v. (v, f, 1);
  f_read = λ f n v. (v, f, []);
  f_write = λ f buf v. (v, f, 0);
}

-- Page 7 is there, to be read and written; its entry stands at 64.
abbrev space : Vm ℕ ℕ
space = record {
  word = λ a. if a == 64 then pte_create_user 7 3 else 0;
  byte = λ a. 0;
  vmr = λ a. no_vmr;
  vmrs = 0;
  root_page_table = 0;
  first_free_page = 65536;
  next_free_page = 0;
  free_pages = 4;
  first_free_paddr = 4096;
  mmap_max = 65536;
  brk_min = 8192;
  brk = 8192;
  brk_max = 65536;
  table = record { files = λ i. record { fd = 0; offset = 0; refcnt = 0 }; volume = 0 };
}

pte_create_user_rights_example :
    (pte_ppn (pte_create_user 7 3) ≡ 7)
    × (pte_ur (pte_create_user 7 3) ≡ (if 3 == 0 then 0 else 1))
    × (pte_uw (pte_create_user 7 3) ≡ 3 / 2 % 2)
    × (pte_ux (pte_create_user 7 3) ≡ 3 / 4)
pte_create_user_rights_example = pte_create_user_rights 7 3 (omega arith) (omega arith)

in_range : valid_user_range 28672 1 space ≡ true
unfolding valid_user_range
in_range = refl

-- A fetch from the page is refused.
fault_at-resident_example : fault_at no_files 7 28672 4 64 space ≡ returned (space, false)
fault_at-resident_example =
    fault_at-resident no_files 7 28672 4 64 7 3 space (omega arith) (omega arith) (inr (inr refl))
      (omega arith) refl in_range

valid_user_range_iff_example :
    (valid_user_range 4096 (2 ^ 64 - 4096) space ≡ true)
    ↔ ((space.first_free_paddr ≤ 4096) × (4096 + (2 ^ 64 - 4096) ≤ space.mmap_max))
valid_user_range_iff_example =
    valid_user_range_iff 4096 (2 ^ 64 - 4096) space (omega arith) (omega arith) (omega arith)

-- A memory of 16 pages, of which 8 are free.
two_pages : 2 ≤ (vm_init 4096 1 65536 space).free_pages
unfolding vm_init max
two_pages = omega arith

vm_init-pages_alloc_example :
    (a : ℕ) × (t : Vm ℕ ℕ) × (pages_alloc 2 (vm_init 4096 1 65536 space)
      ≡ returned (t, pages_from a 2))
    × ((vm_init 4096 1 65536 space).mmap_max ≤ a)
    × (a + 4096 * 2 ≤ 65536)
    × ((b : ℕ) → t.word b ≡ cleared a 2 space.word b)
vm_init-pages_alloc_example =
    vm_init-pages_alloc 2 4096 1 65536 space refl (omega arith) (omega arith) two_pages
