-- ===== src/Vm/Pte/Permissions.antt =====
-- The permissions of the entries of user pages, bbl/vm.c.
use lowrisc_kc.Base.{
  ℕ, ◌+◌, ◌*◌, ◌/◌, ◌%◌, ◌^◌, ◌<◌, ◌≡◌, ◌⊎◌, inl, inr, refl, sym, ap, ap₂, ◌∙◌, Bool, true, false,
  not, bit_and, bit_or, ◌==◌, ==_iff, if◌then◌else◌, u64, arith, every, every_lem,
}
use lowrisc_kc.Base.Bits.{
  bit_or_fields, bit_or_split, bit_and_split, bit_and_mask, bit_or-zero, bit_and-zero,
}
use lowrisc_kc.Vm.Pte.{pte_create_user, user_type, pte_ppn, pte_ur, pte_uw, pte_ux, pte_bit}

abbrev same : Bool → Bool → Bool
same true b = b
same false b = not b

-- The low bits of an entry with a protection.
abbrev low_bits : ℕ → ℕ
low_bits prot = bit_or 1 (user_type (bit_and prot 7))

low_bits_table : every (λ prot. low_bits prot / 32 == 0) 8 ≡ true
unfolding user_type every
low_bits_table = refl

low_bits-lt : (prot : ℕ) → prot < 8 → low_bits prot < 32
low_bits-lt prot h =
    let small =
      (==_iff (low_bits prot / 32) 0).0
        (every_lem (λ k. low_bits k / 32 == 0) 8 prot h low_bits_table) in
    omega (arith, small)

type_table_lt : every (λ prot. user_type (bit_and prot 7) / 32 == 0) 8 ≡ true
unfolding user_type every
type_table_lt = refl

-- The page number and the low bits of an entry are apart.
pub pte_create_user_fields :
    (p prot : ℕ) → p < 2 ^ 54 → prot < 8 → pte_create_user p prot ≡ p * 2 ^ 10 + low_bits prot
unfolding pte_create_user
pte_create_user_fields p prot h k =
    let t = user_type (bit_and prot 7) in
    let small =
      (==_iff (t / 32) 0).0
        (every_lem (λ n. user_type (bit_and n 7) / 32 == 0) 8 prot k type_table_lt) in
    let whole : u64 (p * 2 ^ 10) ≡ p * 2 ^ 10 = omega arith in
    ap (λ (x : ℕ). bit_or (bit_or x 1) t) whole
    ∙ ap (λ (x : ℕ). bit_or x t) (bit_or_fields 10 p 1 (omega arith))
    ∙ ap (λ (x : ℕ). bit_or (p * 2 ^ 10 + 1) x) (omega arith)
    ∙ bit_or_split 10 p 0 1 t (omega arith) (omega (arith, small))
    ∙ ap (λ (x : ℕ). x * 2 ^ 10 + bit_or 1 t) (bit_or-zero p)

odd_table : every (λ prot. low_bits prot % 2 == 1) 8 ≡ true
unfolding user_type every
odd_table = refl

-- The entry of a user page is valid.
pub pte_create_user_odd : (p prot : ℕ) → p < 2 ^ 54 → prot < 8 → pte_create_user p prot % 2 ≡ 1
pte_create_user_odd p prot h k =
    let odd =
      (==_iff (low_bits prot % 2) 1).0 (every_lem (λ n. low_bits n % 2 == 1) 8 prot k odd_table) in
    omega (arith, pte_create_user_fields p prot h k, odd)

-- A permission of an entry is that of its low bits.
pte_bit-entry :
    (row p prot : ℕ)
    → p < 2 ^ 54
    → prot < 8
    → pte_bit row (pte_create_user p prot) ≡ bit_and (row / 2 ^ low_bits prot) 1
unfolding pte_bit
pte_bit-entry row p prot h k =
    let below = low_bits-lt prot k in
    let low : bit_and (pte_create_user p prot) 0x1f ≡ low_bits prot =
      bit_and_mask 5 (pte_create_user p prot) ∙ omega (arith, pte_create_user_fields p prot h k) in
    ap (λ (x : ℕ). bit_and (row / 2 ^ x) 1) low

-- A row of permissions, for each protection.
read_row :
    every (λ n. bit_and (0x0000aaa0 / 2 ^ low_bits n) 1 == (if n == 0 then 0 else 1)) 8 ≡ true
unfolding user_type every
read_row = refl

write_row : every (λ n. bit_and (0x00008880 / 2 ^ low_bits n) 1 == n / 2 % 2) 8 ≡ true
unfolding user_type every
write_row = refl

exec_row : every (λ n. bit_and (0x0000a0a0 / 2 ^ low_bits n) 1 == n / 4) 8 ≡ true
unfolding user_type every
exec_row = refl

permission :
    (row p prot : ℕ) (right : ℕ → ℕ)
    → every (λ n. bit_and (row / 2 ^ low_bits n) 1 == right n) 8 ≡ true
    → p < 2 ^ 54
    → prot < 8
    → pte_bit row (pte_create_user p prot) ≡ right prot
permission row p prot right table h k =
    pte_bit-entry row p prot h k
    ∙ (==_iff (bit_and (row / 2 ^ low_bits prot) 1) (right prot)).0
        (every_lem (λ n. bit_and (row / 2 ^ low_bits n) 1 == right n) 8 prot k table)

-- The entry of a user page has its page number; it can be written and executed as its protection
-- says, and read with any protection but none.
pub pte_create_user_rights :
    (p prot : ℕ)
    → p < 2 ^ 54
    → prot < 8
    → (pte_ppn (pte_create_user p prot) ≡ p)
      × (pte_ur (pte_create_user p prot) ≡ (if prot == 0 then 0 else 1))
      × (pte_uw (pte_create_user p prot) ≡ prot / 2 % 2)
      × (pte_ux (pte_create_user p prot) ≡ prot / 4)
unfolding pte_ppn pte_ur pte_uw pte_ux
pte_create_user_rights p prot h k = (
  omega (arith, pte_create_user_fields p prot h k, low_bits-lt prot k),
  permission 0x0000aaa0 p prot (λ n. if n == 0 then 0 else 1) read_row h k,
  permission 0x00008880 p prot (λ n. n / 2 % 2) write_row h k,
  permission 0x0000a0a0 p prot (λ n. n / 4) exec_row h k,
)

-- Whether an access of the kind `access`, one of the three bits, is within a protection.
abbrev pub allows : ℕ → ℕ → Bool
allows prot access = if access == 1 then not (prot == 0) else not (bit_and prot access == 0)

check_table :
    (access : ℕ)
    → (access ≡ 1) ⊎ (access ≡ 2) ⊎ (access ≡ 4)
    → every
        (λ n. same (bit_and (low_bits n) (low_bits access) == low_bits access) (allows n access))
        8
      ≡ true
unfolding user_type every
check_table access (inl e) = rw e refl
check_table access (inr (inl e)) = rw e refl
check_table access (inr (inr e)) = rw e refl

same_eq : (a b : Bool) → same a b ≡ true → a ≡ b
same_eq true true h = refl
same_eq true false h = sym h
same_eq false true h = h
same_eq false false h = refl

check-allows :
    (prot access : ℕ)
    → every
        (λ n. same (bit_and (low_bits n) (low_bits access) == low_bits access) (allows n access))
        8
      ≡ true
    → prot < 8
    → (bit_and (low_bits prot) (low_bits access) == low_bits access) ≡ allows prot access
check-allows prot access table h =
    same_eq (bit_and (low_bits prot) (low_bits access) == low_bits access) (allows prot access) (
      every_lem
        (λ n. same (bit_and (low_bits n) (low_bits access) == low_bits access) (allows n access)) 8
        prot h table)

-- An access to the entry of a user page is let through by the test of the page fault exactly when
-- the page's protection allows it: a write or a fetch by its own bit, a read by any bit.
pub pte_create_user_check :
    (p prot access : ℕ)
    → p < 2 ^ 54
    → prot < 8
    → (access ≡ 1) ⊎ (access ≡ 2) ⊎ (access ≡ 4)
    → (bit_and (pte_create_user p prot) (pte_create_user 0 access) == pte_create_user 0 access)
      ≡ allows prot access
pte_create_user_check p prot access h k kind =
    let small : access < 8 = below kind in
    let entry = pte_create_user_fields p prot h k in
    let perms : pte_create_user 0 access ≡ low_bits access =
      pte_create_user_fields 0 access (omega arith) small ∙ omega arith in
    let low = low_bits-lt prot k in
    let perms_low = low_bits-lt access small in
    let met : bit_and (pte_create_user p prot) (pte_create_user 0 access)
        ≡ bit_and (low_bits prot) (low_bits access) =
      ap₂ bit_and entry (perms ∙ omega arith)
      ∙ bit_and_split 10 p 0 (low_bits prot) (low_bits access) (omega arith) (omega arith)
      ∙ ap (λ (x : ℕ). x * 2 ^ 10 + bit_and (low_bits prot) (low_bits access)) (bit_and-zero p)
      ∙ omega arith in
    ap₂ (λ (x y : ℕ). x == y) met perms ∙ check-allows prot access (check_table access kind) k
  where
    below : (access ≡ 1) ⊎ (access ≡ 2) ⊎ (access ≡ 4) → access < 8
    below (inl e) = omega (arith, e)
    below (inr (inl e)) = omega (arith, e)
    below (inr (inr e)) = omega (arith, e)
