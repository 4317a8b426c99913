-- ===== src/Driver/Elf.antt =====
-- The loader of driver/elf.c. The file is a function from offsets to bytes, the memory one from
-- addresses to bytes: the image of the file lies apart from the memory that is loaded. The start of
-- a block wraps around at 2^64; no block reaches beyond.
pub mod Segments
pub mod Placing
mod Tests
use lowrisc_kc.Base.{
  ℕ, zero, suc, ◌+◌, ◌-◌, ◌*◌, ◌<◌, Bool, true, false, ◌&&◌, not, leb, ltb, ◌==◌, if◌then◌else◌,
  u64,
}

-- memcpy and memset of the C library.
unfoldable pub memcpy : ℕ → (ℕ → ℕ) → ℕ → ℕ → (ℕ → ℕ) → ℕ → ℕ
memcpy dest file src len mem a =
    if leb dest a && ltb a (dest + len) then file (src + (a - dest)) else mem a

unfoldable pub clear : ℕ → ℕ → (ℕ → ℕ) → ℕ → ℕ
clear dest len mem a = if leb dest a && ltb a (dest + len) then 0 else mem a

-- A little-endian field of some bytes.
unfoldable pub field : ℕ → (ℕ → ℕ) → ℕ → ℕ
field zero elf at = 0
field (suc count) elf at = elf at + 256 * field count elf (at + 1)

unfoldable pub is_elf64 : (ℕ → ℕ) → Bool
is_elf64 elf = elf 0 == 0x7f && elf 1 == b'E' && elf 2 == b'L' && elf 3 == b'F' && elf 4 == 2

-- The fields of Elf64_Ehdr and Elf64_Phdr that are read.
unfoldable pub e_phoff : (ℕ → ℕ) → ℕ
unfolding field
e_phoff elf = field 8 elf 32

unfoldable pub e_phnum : (ℕ → ℕ) → ℕ
unfolding field
e_phnum elf = field 2 elf 56

pub record Phdr : Type 0 where
  pub p_type : ℕ
  pub p_offset : ℕ
  pub p_paddr : ℕ
  pub p_filesz : ℕ
  pub p_memsz : ℕ

abbrev pub ehdr_size : ℕ
ehdr_size = 64

abbrev pub phdr_size : ℕ
phdr_size = 56

unfoldable pub program_header : (ℕ → ℕ) → ℕ → Phdr
unfolding field e_phoff
program_header elf i =
    let at = u64 (e_phoff elf + i * phdr_size) in
    record {
      p_type = field 4 elf at;
      p_offset = field 8 elf (at + 8);
      p_paddr = field 8 elf (at + 24);
      p_filesz = field 8 elf (at + 32);
      p_memsz = field 8 elf (at + 40);
    }

abbrev pub pt_load : ℕ
pt_load = 1

unfoldable pub loadable : Phdr → Bool
loadable ph = ph.p_type == pt_load && not (ph.p_memsz == 0)

-- What the file does not fill.
unfoldable pub pad : ℕ → Phdr → (ℕ → ℕ) → ℕ → ℕ
unfolding clear
pad base ph mem =
    if ltb ph.p_filesz ph.p_memsz
    then clear (u64 (base + ph.p_paddr + ph.p_filesz)) (ph.p_memsz - ph.p_filesz) mem
    else mem

-- The loop over the headers, on those that are left: the result and the memory.
unfoldable pub load_headers : ℕ → ℕ → ℕ → ℕ → (ℕ → ℕ) → (ℕ → ℕ) → ℕ × (ℕ → ℕ)
unfolding memcpy pad loadable program_header
load_headers zero i base elf_size elf mem = (0, mem)
load_headers (suc rounds) i base elf_size elf mem =
    let ph = program_header elf i in
    let skipped = load_headers rounds (i + 1) base elf_size elf mem in
    let cleared = load_headers rounds (i + 1) base elf_size elf (pad base ph mem) in
    let copied =
      load_headers rounds (i + 1) base elf_size elf
        (pad base ph (memcpy (u64 (base + ph.p_paddr)) elf ph.p_offset ph.p_filesz mem)) in
    if not (loadable ph)
    then skipped
    else if ph.p_filesz == 0
    then cleared
    else if ltb elf_size (u64 (ph.p_offset + ph.p_filesz))
    then (3, mem)
    else copied

unfoldable pub load_elf : ℕ → ℕ → (ℕ → ℕ) → (ℕ → ℕ) → ℕ × (ℕ → ℕ)
unfolding load_headers is_elf64 e_phoff e_phnum
load_elf target_base elf_size elf mem =
    if leb elf_size ehdr_size
    then (1, mem)
    else if not (is_elf64 elf)
    then (2, mem)
    else if ltb elf_size (u64 (e_phoff elf + e_phnum elf * phdr_size))
    then (3, mem)
    else load_headers (e_phnum elf) 0 target_base elf_size elf mem
