-- ===== src/Driver/Elf/Placing.antt =====
-- Where the loader of driver/elf.c succeeds, the segments are in place.
use lowrisc_kc.Base.{
  ℕ, zero, suc, ◌+◌, ◌-◌, ◌*◌, ◌^◌, ◌<◌, ◌≤◌, ◌≡◌, ◌≢◌, refl, ap, ◌∙◌, fun_ext, Bool, true, false,
  ◌&&◌, Bool-cases, inl, inr, leb, ltb, ◌==◌, if◌then◌else◌, u64, arith, ==_iff,
}
use lowrisc_kc.Driver.Elf.{
  memcpy, Phdr, program_header, loadable, pad, load_headers, load_elf, e_phnum, e_phoff, is_elf64,
  phdr_size, ehdr_size,
}
use lowrisc_kc.Driver.Elf.Segments.{
  little_endian, segment, is_load, field_lem, segment_lem, is_load_lem,
}

-- The bytes of a segment: those of the file, then zeros.
unfoldable pub placed : ℕ → (ℕ → ℕ) → Phdr → (ℕ → ℕ) → ℕ → ℕ
placed base elf ph mem a =
    let start = u64 (base + ph.p_paddr) in
    let zeros = u64 (base + ph.p_paddr + ph.p_filesz) in
    if leb zeros a && ltb a (zeros + (ph.p_memsz - ph.p_filesz))
    then 0
    else if leb start a && ltb a (start + ph.p_filesz)
    then elf (ph.p_offset + (a - start))
    else mem a

-- The segments of some headers, one after another, as the loop reads the headers.
headers_placed : ℕ → ℕ → ℕ → (ℕ → ℕ) → (ℕ → ℕ) → ℕ → ℕ
headers_placed zero i base elf mem = mem
headers_placed (suc rounds) i base elf mem =
    headers_placed rounds (i + 1) base elf
      (if loadable (program_header elf i) then placed base elf (program_header elf i) mem else mem)

unfoldable pub all_placed : ℕ → ℕ → ℕ → (ℕ → ℕ) → (ℕ → ℕ) → ℕ → ℕ
all_placed zero i base elf mem = mem
all_placed (suc rounds) i base elf mem =
    all_placed rounds (i + 1) base elf
      (if is_load (segment elf i) then placed base elf (segment elf i) mem else mem)

-- The segment's part of the file lies in the file, if its end does not wrap around.
abbrev pub IsInFile : ℕ → Phdr → Type 0
IsInFile elf_size ph =
    is_load ph ≡ true
    → ph.p_filesz ≢ 0
    → ph.p_offset + ph.p_filesz < 2 ^ 64
    → ph.p_offset + ph.p_filesz ≤ elf_size

-- The same as the loop tests it.
abbrev InFile : ℕ → Phdr → Type 0
InFile elf_size ph =
    loadable ph ≡ true
    → ph.p_filesz ≢ 0
    → ph.p_offset + ph.p_filesz < 2 ^ 64
    → ph.p_offset + ph.p_filesz ≤ elf_size

-- The zeros at an address, whether there are any or not.
pad_get :
    (base : ℕ) (ph : Phdr) (mem : ℕ → ℕ) (a : ℕ)
    → pad base ph mem a ≡ (
        if leb (u64 (base + ph.p_paddr + ph.p_filesz)) a
          && ltb a (u64 (base + ph.p_paddr + ph.p_filesz) + (ph.p_memsz - ph.p_filesz))
        then 0
        else mem a)
unfolding pad
pad_get base ph mem a = elim (Bool-cases (ltb ph.p_filesz ph.p_memsz)) [
  | inl e ↦ rw e refl
  | inr e ↦ rw e (ground arith)
]

pad-memcpy :
    (base : ℕ) (elf : ℕ → ℕ) (ph : Phdr) (mem : ℕ → ℕ)
    → pad base ph (memcpy (u64 (base + ph.p_paddr)) elf ph.p_offset ph.p_filesz mem)
      ≡ placed base elf ph mem
unfolding placed memcpy
pad-memcpy base elf ph mem =
    fun_ext
      λ a. pad_get base ph (memcpy (u64 (base + ph.p_paddr)) elf ph.p_offset ph.p_filesz mem) a

pad_lem :
    (base : ℕ) (elf : ℕ → ℕ) (ph : Phdr) (mem : ℕ → ℕ)
    → ph.p_filesz ≡ 0
    → pad base ph mem ≡ placed base elf ph mem
unfolding placed
pad_lem base elf ph mem e = fun_ext λ a. pad_get base ph mem a ∙ ground arith

-- What a result of 0 says of a loop from the header `i` on.
abbrev Loaded : ℕ → ℕ → ℕ → ℕ → (ℕ → ℕ) → (ℕ → ℕ) → ℕ × (ℕ → ℕ) → Type 0
Loaded rounds i base elf_size elf mem r =
    (r.0 ≡ 0)
    → (r.1 ≡ headers_placed rounds i base elf mem)
      × ((k : ℕ) → k < rounds → InFile elf_size (program_header elf (i + k)))

absurd_test {ℓ} : {A : Type ℓ} {b : Bool} → b ≡ false → b ≡ true → A
absurd_test e f = cc (e, f)

fits_lem : (elf_size end : ℕ) → end < 2 ^ 64 → ltb elf_size (u64 end) ≡ false → end ≤ elf_size
fits_lem elf_size end h e = ground arith

next-InFile :
    (rounds i elf_size : ℕ) (elf : ℕ → ℕ)
    → InFile elf_size (program_header elf i)
    → ((k : ℕ) → k < rounds → InFile elf_size (program_header elf (i + 1 + k)))
    → (k : ℕ) → k < suc rounds
    → InFile elf_size (program_header elf (i + k))
next-InFile rounds i elf_size elf now later zero h = let e : i + 0 ≡ i = omega arith in rw e now
next-InFile rounds i elf_size elf now later (suc k) h =
    let e : i + suc k ≡ i + 1 + k = omega arith in rw e (later k (omega arith))

load_headers-Loaded :
    (rounds i base elf_size : ℕ) (elf mem : ℕ → ℕ)
    → Loaded rounds i base elf_size elf mem (load_headers rounds i base elf_size elf mem)
unfolding load_headers headers_placed
load_headers-Loaded zero i base elf_size elf mem = λ z. (refl, λ k h. absurd (omega arith))
load_headers-Loaded (suc rounds) i base elf_size elf mem =
    let ph = program_header elf i in
    elim (Bool-cases (loadable ph)) [
      | inr skip ↦ rw skip (λ z.
          let (m, n) = load_headers-Loaded rounds (i + 1) base elf_size elf mem z in
          (m, next-InFile rounds i elf_size elf (λ l ne w. absurd_test skip l) n))
      | inl load ↦ rw load (elim (Bool-cases (ph.p_filesz == 0)) [
        | inl empty ↦ rw empty (λ z.
            let (m, n) = load_headers-Loaded rounds (i + 1) base elf_size elf (pad base ph mem) z in
            (
              m
                  ∙ ap (λ (t : ℕ → ℕ). headers_placed rounds (i + 1) base elf t)
                      (pad_lem base elf ph mem ((==_iff ph.p_filesz 0).0 empty)),
              next-InFile rounds i elf_size elf
                  (λ l ne w. absurd (ne ((==_iff ph.p_filesz 0).0 empty))) n,
            ))
        | inr some ↦ rw some (elim (Bool-cases (ltb elf_size (u64 (ph.p_offset + ph.p_filesz)))) [
          | inl out ↦ rw out (λ z. absurd (omega (arith, z)))
          | inr fits ↦ rw fits (λ z.
              let (m, n) =
                load_headers-Loaded rounds (i + 1) base elf_size elf
                  (pad base ph (memcpy (u64 (base + ph.p_paddr)) elf ph.p_offset ph.p_filesz mem))
                  z in
              (
                m
                    ∙ ap (λ (t : ℕ → ℕ). headers_placed rounds (i + 1) base elf t)
                        (pad-memcpy base elf ph mem),
                next-InFile rounds i elf_size elf
                    (λ l ne w. fits_lem elf_size (ph.p_offset + ph.p_filesz) w fits) n,
              ))
        ])
      ])
    ]

load_elf-Loaded :
    (target_base elf_size : ℕ) (elf mem : ℕ → ℕ)
    → (load_elf target_base elf_size elf mem).0 ≡ 0
    → ((load_elf target_base elf_size elf mem).1
        ≡ headers_placed (e_phnum elf) 0 target_base elf mem)
      × ((k : ℕ) → k < e_phnum elf → InFile elf_size (program_header elf (0 + k)))
unfolding load_elf
load_elf-Loaded target_base elf_size elf mem = elim (Bool-cases (leb elf_size ehdr_size)) [
  | inl a ↦ rw a (λ z. absurd (omega (arith, z)))
  | inr a ↦ rw a (elim (Bool-cases (is_elf64 elf)) [
    | inr b ↦ rw b (λ z. absurd (omega (arith, z)))
    | inl b ↦ rw b (elim (Bool-cases (ltb elf_size (u64 (e_phoff elf + e_phnum elf * phdr_size)))) [
      | inl c ↦ rw c (λ z. absurd (omega (arith, z)))
      | inr c ↦ rw c (load_headers-Loaded (e_phnum elf) 0 target_base elf_size elf mem)
    ])
  ])
]

placed_lem :
    (rounds i base : ℕ) (elf mem : ℕ → ℕ)
    → headers_placed rounds i base elf mem ≡ all_placed rounds i base elf mem
unfolding headers_placed all_placed
placed_lem zero i base elf mem = refl
placed_lem (suc rounds) i base elf mem =
    placed_lem rounds (i + 1) base elf _
    ∙ ap
        (λ (ph : Phdr).
          all_placed rounds (i + 1) base elf (if loadable ph then placed base elf ph mem else mem))
        (segment_lem elf i)
    ∙ ap
        (λ (b : Bool).
          all_placed rounds (i + 1) base elf
            (if b then placed base elf (segment elf i) mem else mem))
        (is_load_lem (segment elf i))

-- Where load_elf returns 0, every segment to load, one whose type is PT_LOAD and whose memory is not
-- empty, is in memory at its physical address, in the order of the headers, the bytes of the file
-- and then zeros, all other memory is as it was, and what was read of each lies in the file, if its
-- end does not wrap around.
pub load_elf-placed :
    (target_base elf_size : ℕ) (elf mem : ℕ → ℕ)
    → (load_elf target_base elf_size elf mem).0 ≡ 0
    → ((load_elf target_base elf_size elf mem).1
        ≡ all_placed (little_endian 2 elf 56) 0 target_base elf mem)
      × ((k : ℕ) → k < little_endian 2 elf 56 → IsInFile elf_size (segment elf k))
unfolding e_phnum
load_elf-placed target_base elf_size elf mem z =
    let (m, n) = load_elf-Loaded target_base elf_size elf mem z in
    let count : e_phnum elf ≡ little_endian 2 elf 56 = field_lem 2 elf 56 in
    (
      m
          ∙ placed_lem (e_phnum elf) 0 target_base elf mem
          ∙ ap (λ (c : ℕ). all_placed c 0 target_base elf mem) count,
      λ k h l ne w.
          let e : 0 + k ≡ k = omega arith in
          let there : InFile elf_size (segment elf k) =
            rw (e, segment_lem elf k) at (n k (rw count h)) in
          there (is_load_lem (segment elf k) ∙ l) ne w,
    )
