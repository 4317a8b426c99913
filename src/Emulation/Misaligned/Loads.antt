-- ===== src/Emulation/Misaligned/Loads.antt =====
-- What the emulation of a misaligned load does to the machine.
use lowrisc_kc.Base.{
  ℕ, ◌+◌, ◌*◌, ◌^◌, ◌<◌, ◌≡◌, ap, ◌∙◌, Bool, true, false, Option, some, u64, bit_and,
}
use lowrisc_kc.Emulation.State.{Hart, emulated, set_rd, get_rs1, imm_i, next_insn}
use lowrisc_kc.Emulation.Encoding.{mask_lw}
use lowrisc_kc.Emulation.Memory.{Clobber}
use lowrisc_kc.Emulation.Misaligned.{extend, do_load, finish_load, misaligned_load}
use lowrisc_kc.Emulation.Misaligned.Bytes.{little_endian, Holds}
use lowrisc_kc.Emulation.Misaligned.Words.{do_load-Holds4, do_load-Holds8}

-- The loads of a word or a double word, by the funct3 of opcode LOAD.
pub data Wide : Type 0 where
  lw ld lwu : Wide

unfoldable pub funct3 : Wide → ℕ
funct3 lw = 2
funct3 ld = 3
funct3 lwu = 6

unfoldable pub size : Wide → ℕ
size lw = 4
size ld = 8
size lwu = 4

unfoldable pub is_signed : Wide → Bool
is_signed lw = true
is_signed ld = false
is_signed lwu = false

module _ (c : Clobber) (h : Hart) (insn : ℕ) where
  selects :
      (w : Wide)
      → bit_and insn mask_lw ≡ funct3 w * 2 ^ 12 + 3
      → misaligned_load c h insn
        ≡ finish_load c h.mstatus h.mepc
            (set_rd insn)
            h
            (do_load (size w) (is_signed w) (u64 (get_rs1 insn h + imm_i insn)) h)
  unfolding misaligned_load funct3 size is_signed
  selects lw e = rw e
  selects ld e = rw e
  selects lwu e = rw e

  do_load-Holds :
      (w : Wide) (k r : ℕ) (f : ℕ → ℕ)
      → 0 < r
      → r < size w
      → Holds h (size w * k) (2 * size w) f
      → do_load (size w) (is_signed w) (size w * k + r) h
        ≡ some (extend (size w) (is_signed w) (little_endian (size w) f r))
  unfolding size is_signed
  do_load-Holds lw k r f p q holds = do_load-Holds4 h k r f true p q holds
  do_load-Holds ld k r f p q holds = do_load-Holds8 h k r f false p q holds
  do_load-Holds lwu k r f p q holds = do_load-Holds4 h k r f false p q holds

  finishes :
      (o : Option ℕ) (v : ℕ)
      → o ≡ some v
      → finish_load c h.mstatus h.mepc (set_rd insn) h o
        ≡ emulated (next_insn h.mepc (set_rd insn h v))
  unfolding finish_load
  finishes o v e = rw e

  -- A misaligned LW, LD or LWU puts the little-endian number in the bytes at its address into rd,
  -- extended as the instruction says, and goes on to the next instruction, provided that the
  -- two aligned words around the address can be read.
  pub misaligned_load-little_endian :
      (w : Wide) (k r : ℕ) (f : ℕ → ℕ)
      → bit_and insn mask_lw ≡ funct3 w * 2 ^ 12 + 3
      → u64 (get_rs1 insn h + imm_i insn) ≡ size w * k + r
      → 0 < r
      → r < size w
      → Holds h (size w * k) (2 * size w) f
      → misaligned_load c h insn
        ≡ emulated (
            next_insn h.mepc
              (set_rd insn h (extend (size w) (is_signed w) (little_endian (size w) f r))))
  misaligned_load-little_endian w k r f e ea p q holds =
      selects w e
      ∙ finishes _ _
          (ap (λ (t : ℕ). do_load (size w) (is_signed w) t h) ea ∙ do_load-Holds w k r f p q holds)
