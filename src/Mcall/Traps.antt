-- ===== src/Mcall/Traps.antt =====
-- Traps that are taken in machine mode, `trap_from_machine_mode` of bbl/mtrap.c. The assembler
-- collects the ranges of the instructions that access memory for the emulation: the table is a
-- parameter, with its addresses as words. It is not empty. The write of mscratch, which only the
-- assembly reads, is left out.
use lowrisc_kc.Base.{
  ℕ, ◌≤◌, ◌<◌, ◌≡◌, ◌⊎◌, Bool-cases, ltb→lt, inl, inr, refl, ap, true, false, ◌&&◌, ◌||◌, Option,
  none, some, List, [], ◌∷◌, ◌++◌, leb, ltb, ◌==◌, if◌then◌else◌, arith,
}
use lowrisc_kc.Mcall.State.{Machine, Outcome, returned, panicked, store}
use lowrisc_kc.Mcall.Calls.{Ramdisk, mcall_trap}

abbrev pub cause_illegal_instruction : ℕ
cause_illegal_instruction = 0x2

abbrev pub cause_fault_load : ℕ
cause_fault_load = 0x5

abbrev pub cause_fault_store : ℕ
cause_fault_store = 0x7

abbrev pub cause_machine_ecall : ℕ
cause_machine_ecall = 0xb

-- The end of the first range that an address is in.
unfoldable pub range_end : ℕ → List (ℕ × ℕ) → Option ℕ
range_end mepc [] = none
range_end mepc ((first, last) ∷ ranges) =
    let rest = range_end mepc ranges in if leb first mepc && ltb mepc last then some last else rest

-- The machine, the registers and mepc after a trap.
abbrev pub Trapped : Type 0 → Type 0
Trapped D = Outcome (Machine D × (ℕ → ℕ) × ℕ)

module _ {D : Type 0} where
  unfoldable pub bad_trap : Trapped D
  bad_trap = panicked

  -- The access is skipped, with t0 zero for the emulation.
  unfoldable pub skipped : (ℕ → ℕ) → Machine D → Option ℕ → Trapped D
  unfolding bad_trap
  skipped regs s none = bad_trap
  skipped regs s (some last) = returned (s, store regs 5 0, last)

  unfoldable pub machine_page_fault : List (ℕ × ℕ) → (ℕ → ℕ) → ℕ → Machine D → Trapped D
  unfolding range_end skipped
  machine_page_fault ranges regs mepc s = skipped regs s (range_end mepc ranges)

-- On mcause and mepc.
module _ {D : Type 0} (ramdisk : Ramdisk D) where
  unfoldable pub trap_from_machine_mode : List (ℕ × ℕ) → ℕ → ℕ → (ℕ → ℕ) → Machine D → Trapped D
  unfolding machine_page_fault bad_trap mcall_trap
  trap_from_machine_mode ranges mcause mepc regs s =
      if (mcause == cause_fault_load) || (mcause == cause_fault_store)
      then machine_page_fault ranges regs mepc s
      else if mcause == cause_illegal_instruction
      then bad_trap
      else if mcause == cause_machine_ecall
      then mcall_trap ramdisk regs mepc s
      else bad_trap

-- An address in none of the ranges.
abbrev pub Outside : ℕ → List (ℕ × ℕ) → Type 0
Outside a [] = Unit
Outside a ((first, last) ∷ ranges) = ((a < first) ⊎ (last ≤ a)) × Outside a ranges

-- The first range that an address is in ends at `last`.
abbrev pub FirstIn : ℕ → List (ℕ × ℕ) → ℕ → Type 0
FirstIn a ranges last =
    (before : List (ℕ × ℕ)) × (first : ℕ) × (rest : List (ℕ × ℕ)) × (ranges
      ≡ before ++ (first, last) ∷ rest)
    × Outside a before
    × (first ≤ a)
    × (a < last)

range_end-cases :
    (a : ℕ) (ranges : List (ℕ × ℕ))
    → (Outside a ranges × (range_end a ranges ≡ none))
      ⊎ ((last : ℕ) × FirstIn a ranges last × (range_end a ranges ≡ some last))
unfolding range_end
range_end-cases a [] = inl (tt, refl)
range_end-cases a ((first, last) ∷ ranges) = elim (Bool-cases (leb first a && ltb a last)) [
  | inl e ↦
      inr (last, ([], first, ranges, refl, tt, ground (arith, e), ground (arith, e)), rw e refl)
  | inr e ↦
      let out : (a < first) ⊎ (last ≤ a) = outside_one a first last e in
      elim (range_end-cases a ranges) [
        | inl (o, n) ↦ inl ((out, o), rw e n)
        | inr (end, (before, f, rest, w, o, low, high), n) ↦ inr (
          end,
          (
            (first, last) ∷ before,
            f,
            rest,
            ap (λ (l : List (ℕ × ℕ)). (first, last) ∷ l) w,
            (out, o),
            low,
            high,
          ),
          rw e n,
        )
      ]
]
  where
    outside_one :
        (a first last : ℕ) → (leb first a && ltb a last) ≡ false → (a < first) ⊎ (last ≤ a)
    outside_one a first last e = elim (Bool-cases (ltb a first)) [
      | inl l ↦ inl (ltb→lt a first l)
      | inr l ↦ inr (ground arith)
    ]

-- A fault of an access in machine mode is survived exactly where the instruction is in a range of
-- the emulation's accesses: t0 is then zero, the machine and the other registers are as they were,
-- and the code goes on at the end of the first such range. Otherwise it panics.
pub trap_from_machine_mode-access :
    {D : Type 0} (ramdisk : Ramdisk D) (ranges : List (ℕ × ℕ)) (mcause mepc : ℕ) (regs : ℕ → ℕ)
    (s : Machine D)
    → (mcause ≡ cause_fault_load) ⊎ (mcause ≡ cause_fault_store)
    → (Outside mepc ranges × (trap_from_machine_mode ramdisk ranges mcause mepc regs s ≡ panicked))
      ⊎ ((last : ℕ) × FirstIn mepc ranges last
          × (trap_from_machine_mode ramdisk ranges mcause mepc regs s
              ≡ returned (s, store regs 5 0, last)))
unfolding trap_from_machine_mode
trap_from_machine_mode-access ramdisk ranges mcause mepc regs s cause =
    let fault : ((mcause == cause_fault_load) || (mcause == cause_fault_store)) ≡ true =
      ground (arith, cause) in
    elim (range_end-cases mepc ranges) [
      | inl (o, n) ↦ inl (o, rw fault (ap (skipped regs s) n))
      | inr (last, f, n) ↦ inr (last, f, rw fault (ap (skipped regs s) n))
    ]
