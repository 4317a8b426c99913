-- ===== src/Driver/Elf/Segments.antt =====
-- The program headers that the loader of driver/elf.c reads, against the layout of the ELF
-- specification.
use native.Mathlib.Nat.{pow-suc}
use lowrisc_kc.Base.{
  ℕ, zero, suc, ◌+◌, ◌*◌, ◌^◌, ◌≡◌, refl, sym, ap, ◌∙◌, fun_ext, Bool, ◌&&◌, ltb, ◌==◌, u64, arith,
}
use lowrisc_kc.Driver.Elf.{Phdr, field, program_header, loadable}

-- The number that some bytes stand for, the lowest first.
unfoldable pub little_endian : ℕ → (ℕ → ℕ) → ℕ → ℕ
little_endian zero elf at = 0
little_endian (suc count) elf at = little_endian count elf at + elf (at + count) * 256 ^ count

-- The program headers as the ELF specification lays them out: e_phoff is at 32 in the file, and each
-- header has 56 bytes, with p_type at 0, p_offset at 8, p_paddr at 24, p_filesz at 32 and p_memsz at
-- 40.
unfoldable pub header_at : (ℕ → ℕ) → ℕ → ℕ
unfolding little_endian
header_at elf i = u64 (little_endian 8 elf 32 + i * 56)

unfoldable pub segment : (ℕ → ℕ) → ℕ → Phdr
unfolding little_endian header_at
segment elf i = record {
  p_type = little_endian 4 elf (header_at elf i);
  p_offset = little_endian 8 elf (header_at elf i + 8);
  p_paddr = little_endian 8 elf (header_at elf i + 24);
  p_filesz = little_endian 8 elf (header_at elf i + 32);
  p_memsz = little_endian 8 elf (header_at elf i + 40);
}

-- PT_LOAD is 1.
unfoldable pub is_load : Phdr → Bool
is_load ph = ph.p_type == 1 && ltb 0 ph.p_memsz

field_last :
    (n : ℕ) (elf : ℕ → ℕ) (at : ℕ) → field (suc n) elf at ≡ field n elf at + elf (at + n) * 256 ^ n
unfolding field
field_last zero elf at = let e : at + 0 ≡ at = omega arith in rw e (omega arith)
field_last (suc n) elf at =
    let e : at + suc n ≡ at + 1 + n = omega arith in
    let p : 256 ^ suc n ≡ 256 ^ n * 256 = pow-suc 256 n in
    rw (e, p) (grind (arith, field_last n elf (at + 1)))

pub field_lem : (n : ℕ) (elf : ℕ → ℕ) (at : ℕ) → field n elf at ≡ little_endian n elf at
unfolding little_endian
field_lem zero elf at = unfold field in refl
field_lem (suc n) elf at =
    field_last n elf at ∙ ap (λ (v : ℕ). v + elf (at + n) * 256 ^ n) (field_lem n elf at)

-- The header, with its fields read in some way.
abbrev header_by : (ℕ → (ℕ → ℕ) → ℕ → ℕ) → (ℕ → ℕ) → ℕ → Phdr
header_by read elf i =
    let at = u64 (read 8 elf 32 + i * 56) in
    record {
      p_type = read 4 elf at;
      p_offset = read 8 elf (at + 8);
      p_paddr = read 8 elf (at + 24);
      p_filesz = read 8 elf (at + 32);
      p_memsz = read 8 elf (at + 40);
    }

program_header_by : (elf : ℕ → ℕ) (i : ℕ) → program_header elf i ≡ header_by field elf i
unfolding program_header
program_header_by elf i = refl

segment_by : (elf : ℕ → ℕ) (i : ℕ) → segment elf i ≡ header_by little_endian elf i
unfolding segment
segment_by elf i = refl

pub segment_lem : (elf : ℕ → ℕ) (i : ℕ) → program_header elf i ≡ segment elf i
segment_lem elf i =
    program_header_by elf i
    ∙ ap (λ (read : ℕ → (ℕ → ℕ) → ℕ → ℕ). header_by read elf i)
        (fun_ext (λ n. fun_ext (λ e. fun_ext (λ at. field_lem n e at))))
    ∙ sym (segment_by elf i)

pub is_load_lem : (ph : Phdr) → loadable ph ≡ is_load ph
unfolding loadable is_load
is_load_lem ph = ground arith
