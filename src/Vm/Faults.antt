-- ===== src/Vm/Faults.antt =====
-- Page faults on pages that are there, bbl/vm.c.
use lowrisc_kc.Base.{
  ℕ, ◌%◌, ◌<◌, ◌^◌, ◌≡◌, ◌≢◌, ◌⊎◌, ap, ◌∙◌, Bool, true, bit_and, ◌==◌, ne_test, arith,
}
use lowrisc_kc.Base.Bits.{bit_and_mask}
use lowrisc_kc.Base.Outcome.{returned}
use lowrisc_kc.Files.{FatFs}
use lowrisc_kc.Vm.Pte.{pte_create_user}
use lowrisc_kc.Vm.Pte.Permissions.{allows, pte_create_user_odd, pte_create_user_check}
use lowrisc_kc.Vm.State.{Vm, valid_user_range}
use lowrisc_kc.Vm.Pages.{permits, fault_at}

-- A fault on a page that is there changes nothing, and it is let through exactly when the
-- protection of the page allows the access, for an address in the user's range.
pub fault_at-resident :
    {V F : Type 0} (fat : FatFs V F) (vpn vaddr access pte p prot : ℕ) (s : Vm V F)
    → p < 2 ^ 54
    → prot < 8
    → (access ≡ 1) ⊎ (access ≡ 2) ⊎ (access ≡ 4)
    → pte ≢ 0
    → s.word pte ≡ pte_create_user p prot
    → valid_user_range vaddr 1 s ≡ true
    → fault_at fat vpn vaddr access pte s ≡ returned (s, allows prot access)
unfolding fault_at permits
fault_at-resident fat vpn vaddr access pte p prot s h k kind there entry range =
    let odd : s.word pte % 2 ≡ 1 = ap (λ (w : ℕ). w % 2) entry ∙ pte_create_user_odd p prot h k in
    let mapped = ne_test (s.word pte) 0 (λ e. omega (arith, odd, e)) in
    let bit : bit_and (s.word pte) 1 ≡ 1 = bit_and_mask 1 (s.word pte) ∙ odd in
    let resident = ne_test (bit_and (s.word pte) 1) 0 (λ e. omega (arith, bit, e)) in
    rw (fault_at, ne_test pte 0 there, mapped, range, resident)
      (ap (λ (b : Bool). returned (s, b))
        (ap (λ (w : ℕ). bit_and w (pte_create_user 0 access) == pte_create_user 0 access) entry
          ∙ pte_create_user_check p prot access h k kind))
