-- ===== src/Strings/Tests.antt =====
-- Blocks, strings and a printed number.
use lowrisc_kc.Strings.Copying.{IsString, memcpy_lem, strcpy_lem}
use lowrisc_kc.Base.{
  ℕ, ◌<◌, ◌+◌, inl, some, if◌then◌else◌, ◌%◌, ◌≡◌, ◌-◌, ◌^◌, refl, [], ◌∷◌, arith,
}
use lowrisc_kc.Base.Int.{negsuc}
use lowrisc_kc.Base.Numerals.{signed_text}
use lowrisc_kc.Strings.Numbers.{atol-signed_text}
use lowrisc_kc.Strings.{memset, atol, memcpy, strcpy, within}
use lowrisc_kc.Strings.Filling.{memset_lem}

memset_lem_example : memset 8 0x1ab 16 (λ a. 7) 23 ≡ 0xab
memset_lem_example = memset_lem 8 0x1ab 16 (λ a. 7) 23

inside_word : memset 8 0x1ab 16 (λ a. 7) 12 ≡ 0xab
unfolding memset
inside_word = refl

outside_bytes : memset 9 0x1ab 3 (λ a. 7) 12 ≡ 7
unfolding memset
outside_bytes = refl

atol-signed_text_example : atol (signed_text (negsuc 304)) ≡ 2 ^ 64 - 305
atol-signed_text_example = atol-signed_text (2 ^ 64 - 305) (omega arith) (omega arith)

leading_blanks : atol (b' ' ∷ b'+' ∷ b'4' ∷ b'2' ∷ []) ≡ 42
unfolding atol
leading_blanks = refl

-- Memory that counts up to 255 and starts again.
abbrev counting : ℕ → ℕ
counting a = a % 256

counting-lt : (a : ℕ) → counting a < 256
counting-lt a = omega arith

memcpy_lem_example : memcpy 64 8 16 counting 70 ≡ 14
memcpy_lem_example = memcpy_lem 64 8 16 counting 70 counting-lt (inl (omega arith))

inside_words : memcpy 64 8 16 counting 79 ≡ 23
unfolding memcpy
inside_words = refl

counting-IsString : IsString 3 253 counting
counting-IsString = ((λ i k e. absurd (omega (arith, e))), refl)

strcpy_lem_example :
    (after : ℕ → ℕ) × (strcpy 4 300 253 counting ≡ some after)
    × ((a : ℕ) → after a ≡ (if within 300 4 a then counting (253 + (a - 300)) else counting a))
strcpy_lem_example = strcpy_lem 3 300 253 counting counting-IsString (inl (omega arith))
