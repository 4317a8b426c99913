-- ===== src/Console/Text.antt =====
-- What the directives of `vsnprintf` mean: the text of a format, of any length.
use lowrisc_kc.Base.{
  ℕ, ◌+◌, ◌^◌, ◌<◌, ◌≡◌, ◌≢◌, Bool, true, false, List, [], ◌∷◌, ◌++◌, if◌then◌else◌, u8, u32, u64,
}
use lowrisc_kc.Base.Int.{ℤ, neg_part, signed as signed_value}
use lowrisc_kc.Base.Numerals.{hex_text, signed_text}

-- The integer that an argument is, a long or an int.
unfoldable pub integer : Bool → ℕ → ℤ
integer long word = if long then signed_value 64 (u64 word) else signed_value 32 (u32 word)

-- The hexadecimal digits of all its bytes.
unfoldable pub all_digits : Bool → ℕ → List ℕ
unfolding hex_text
all_digits long word = if long then hex_text 16 (u64 word) else hex_text 8 (u32 word)

-- `Renders format long a s t`: from the argument `a` on, in the state of the flags, the rest `s` of
-- the format stands for the text `t`. The least long has no text.
module _ (text : ℕ → List ℕ) (vl : ℕ → ℕ) where
  pub data Renders : Bool → Bool → ℕ → List ℕ → List ℕ → Type 0 where
    end : (f l : Bool) (a : ℕ) → Renders f l a [] []
    plain :
        (l : Bool) (a c : ℕ) (s t : List ℕ)
        → c ≢ b'%'
        → Renders false l a s t
        → Renders false l a (c ∷ s) (c ∷ t)
    percent :
        (l : Bool) (a c : ℕ) (s t : List ℕ)
        → c ≡ b'%'
        → Renders true l a s t
        → Renders false l a (c ∷ s) t
    long :
        (l : Bool) (a c : ℕ) (s t : List ℕ)
        → c ≡ b'l'
        → Renders true true a s t
        → Renders true l a (c ∷ s) t
    pointer :
        (l : Bool) (a c : ℕ) (s t u : List ℕ)
        → c ≡ b'p'
        → u ≡ b'0' ∷ b'x' ∷ all_digits true (vl a) ++ t
        → Renders false false (a + 1) s t
        → Renders true l a (c ∷ s) u
    hex :
        (l : Bool) (a c : ℕ) (s t u : List ℕ)
        → c ≡ b'x'
        → u ≡ all_digits l (vl a) ++ t
        → Renders false false (a + 1) s t
        → Renders true l a (c ∷ s) u
    signed :
        (l : Bool) (a c : ℕ) (s t u : List ℕ)
        → c ≡ b'd'
        → neg_part (integer l (vl a)) < 2 ^ 63
        → u ≡ signed_text (integer l (vl a)) ++ t
        → Renders false false (a + 1) s t
        → Renders true l a (c ∷ s) u
    string :
        (l : Bool) (a c : ℕ) (s t u : List ℕ)
        → c ≡ b's'
        → u ≡ text (vl a) ++ t
        → Renders false false (a + 1) s t
        → Renders true l a (c ∷ s) u
    char :
        (l : Bool) (a c : ℕ) (s t u : List ℕ)
        → c ≡ b'c'
        → u ≡ u8 (vl a) ∷ t
        → Renders false false (a + 1) s t
        → Renders true l a (c ∷ s) u
