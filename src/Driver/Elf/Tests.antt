-- ===== src/Driver/Elf/Tests.antt =====
-- A file with one segment of two bytes and two zeros.
use lowrisc_kc.Base.{ℕ, ◌<◌, ◌≡◌, refl, ◌&&◌, leb, ltb, ◌==◌, if◌then◌else◌}
use lowrisc_kc.Driver.Elf.{load_elf}
use lowrisc_kc.Driver.Elf.Segments.{little_endian, segment}
use lowrisc_kc.Driver.Elf.Placing.{all_placed, IsInFile, load_elf-placed}

abbrev image : ℕ → ℕ
image a =
    if a == 0
    then 0x7f
    else if a == 1
    then b'E'
    else if a == 2
    then b'L'
    else if a == 3
    then b'F'
    else if a == 4
    then 2
    else if a == 32
    then 64
    else if a == 56
    then 1
    else if a == 64
    then 1
    else if a == 72
    then 120
    else if a == 88
    then 16
    else if a == 96
    then 2
    else if a == 104
    then 4
    else if a == 120
    then 0xab
    else if a == 121
    then 0xcd
    else 0

abbrev nines : ℕ → ℕ
nines a = 9

loads : (load_elf 0x1000 122 image nines).0 ≡ 0
unfolding load_elf
loads = refl

load_elf-placed_example :
    ((load_elf 0x1000 122 image nines).1
      ≡ all_placed (little_endian 2 image 56) 0 0x1000 image nines)
    × ((k : ℕ) → k < little_endian 2 image 56 → IsInFile 122 (segment image k))
load_elf-placed_example = load_elf-placed 0x1000 122 image nines loads

second_byte : (load_elf 0x1000 122 image nines).1 0x1011 ≡ 0xcd
unfolding load_elf
second_byte = refl

zero_byte : (load_elf 0x1000 122 image nines).1 0x1013 ≡ 0
unfolding load_elf
zero_byte = refl

-- Sixteen bytes at the offset 2^64 - 8: the sum wraps around and the check passes.
abbrev wrapping : ℕ → ℕ
wrapping a =
    if leb 73 a && ltb a 80 then 0xff else if a == 72 then 0xf8 else if a == 96 then 16 else image a

wrapping_passes : (load_elf 0x1000 122 wrapping nines).0 ≡ 0
unfolding load_elf
wrapping_passes = refl
