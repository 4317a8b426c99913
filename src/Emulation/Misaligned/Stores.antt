-- ===== src/Emulation/Misaligned/Stores.antt =====
-- What the emulation of a misaligned store does to memory.
use lowrisc_kc.Base.{
  ℕ, zero, suc, ◌+◌, ◌*◌, ◌/◌, ◌%◌, ◌^◌, ◌≤◌, ◌<◌, ◌≡◌, refl, ap, ◌∙◌, Bool, true, false, some,
  arith, u8, u64, bit_and, ◌⊎◌, inl, inr, Bool-cases,
}
use lowrisc_kc.Emulation.State.{Hart, emulated, update, get_rs1, get_rs2, imm_s, next_insn}
use lowrisc_kc.Emulation.Encoding.{mask_lw}
use lowrisc_kc.Emulation.Memory.{Clobber, load, store}
use lowrisc_kc.Emulation.Misaligned.Bytes.{load-suc}
use lowrisc_kc.Emulation.Misaligned.{finish_store, misaligned_store}

-- The lowest `n` bytes of a number.
unfoldable pub low_bytes : ℕ → ℕ → ℕ
low_bytes zero v = 0
low_bytes (suc n) v = u8 v + 256 * low_bytes n (v / 2 ^ 8)

put : ℕ → ℕ → Hart → Hart
put addr val h = record h { mem = update h.mem addr (some (u8 val)) }

put_self : (addr val : ℕ) (h : Hart) → (put addr val h).mem addr ≡ some (u8 val)
unfolding put
put_self addr val h = ground arith

store-suc :
    (n addr val : ℕ) (h : Hart)
    → addr + 1 < 2 ^ 64
    → h.can_store addr ≡ true
    → store (suc n) addr val h ≡ store n (addr + 1) (val / 2 ^ 8) (put addr val h)
unfolding store put
store-suc n addr val h fits e =
    rw e (ap (λ (t : ℕ). store n t (val / 2 ^ 8) (put addr val h)) (omega arith))

store-refused :
    (n addr val : ℕ) (h : Hart) → h.can_store addr ≡ false → store (suc n) addr val h ≡ (h, false)
unfolding store
store-refused n addr val h e = rw e

-- A store changes no byte outside its range, whether it traps or not.
pub store-outside :
    (n addr val j : ℕ) (h : Hart)
    → addr + n < 2 ^ 64
    → (j < addr) ⊎ (addr + n ≤ j)
    → (store n addr val h).0.mem j ≡ h.mem j
unfolding store put
store-outside zero addr val j h fits out = refl
store-outside (suc n) addr val j h fits out = elim (Bool-cases (h.can_store addr)) [
  | inl e ↦
      ap (λ (t : Hart × Bool). t.0.mem j) (store-suc n addr val h (omega arith) e)
      ∙ store-outside n (addr + 1) (val / 2 ^ 8) j (put addr val h) (omega arith) (omega arith)
      ∙ ground arith
  | inr e ↦ ap (λ (t : Hart × Bool). t.0.mem j) (store-refused n addr val h e)
]

-- A store that does not trap is read back.
pub load-store :
    (n addr val : ℕ) (h : Hart)
    → addr + n < 2 ^ 64
    → ((j : ℕ) → addr ≤ j → j < addr + n → h.can_store j ≡ true)
    → ((store n addr val h).1 ≡ true)
      × (load n addr (store n addr val h).0 ≡ some (low_bytes n val))
unfolding low_bytes
load-store zero addr val h fits can = unfold load store in (refl, refl)
load-store (suc n) addr val h fits can =
    let e = store-suc n addr val h (omega arith) (can addr (omega arith) (omega arith)) in
    let rest =
      load-store n (addr + 1) (val / 2 ^ 8) (put addr val h) (omega arith)
        (λ j p q. unfold put in can j (omega arith) (omega arith)) in
    let h' : Hart = (store n (addr + 1) (val / 2 ^ 8) (put addr val h)).0 in
    rw e (
      rest.0,
      load-suc n addr (u8 val) (low_bytes n (val / 2 ^ 8)) h'
          (store-outside n (addr + 1) (val / 2 ^ 8) addr (put addr val h) (omega arith)
              (inl (omega arith))
            ∙ put_self addr val h)
          (ap (λ (t : ℕ). load n t h') (omega arith) ∙ rest.1),
    )

-- The stores from an integer register, by the funct3 of opcode STORE.
pub data Wide : Type 0 where
  sh sw sd : Wide

unfoldable pub funct3 : Wide → ℕ
funct3 sh = 1
funct3 sw = 2
funct3 sd = 3

unfoldable pub size : Wide → ℕ
size sh = 2
size sw = 4
size sd = 8

low_bytes-mod : (w : Wide) (v : ℕ) → low_bytes (size w) v ≡ v % 2 ^ (8 * size w)
unfolding low_bytes size
low_bytes-mod sh v = omega arith
low_bytes-mod sw v = omega arith
low_bytes-mod sd v = omega arith

module _ (c : Clobber) (h : Hart) (insn : ℕ) where
  abbrev addr : ℕ
  addr = u64 (get_rs1 insn h + imm_s insn)

  selects :
      (w : Wide)
      → bit_and insn mask_lw ≡ funct3 w * 2 ^ 12 + 0x23
      → misaligned_store c h insn
        ≡ finish_store c h.mstatus h.mepc (store (size w) addr (get_rs2 insn h) h)
  unfolding misaligned_store funct3 size
  selects sh e = rw e
  selects sw e = rw e
  selects sd e = rw e

  finishes :
      (s : Hart × Bool)
      → s.1 ≡ true
      → finish_store c h.mstatus h.mepc s ≡ emulated (next_insn h.mepc s.0)
  unfolding finish_store
  finishes (h', true) e = refl
  finishes (h', false) e = cc

  -- A misaligned SH, SW or SD whose bytes can all be stored goes on to the next instruction with a
  -- memory in which the bytes at its address read as the low bytes of rs2, and every other byte
  -- is what it was.
  pub misaligned_store-stores :
      (w : Wide)
      → bit_and insn mask_lw ≡ funct3 w * 2 ^ 12 + 0x23
      → addr + size w < 2 ^ 64
      → ((j : ℕ) → addr ≤ j → j < addr + size w → h.can_store j ≡ true)
      → (h' : Hart) × (misaligned_store c h insn ≡ emulated (next_insn h.mepc h'))
        × (load (size w) addr h' ≡ some (get_rs2 insn h % 2 ^ (8 * size w)))
        × ((j : ℕ) → (j < addr) ⊎ (addr + size w ≤ j) → h'.mem j ≡ h.mem j)
  misaligned_store-stores w e fits can =
      let val = get_rs2 insn h in
      let (done, read) = load-store (size w) addr val h fits can in
      (
        (store (size w) addr val h).0,
        selects w e ∙ finishes (store (size w) addr val h) done,
        read ∙ ap some (low_bytes-mod w val),
        λ j out. store-outside (size w) addr val j h fits out,
      )
