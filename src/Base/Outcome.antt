-- ===== src/Base/Outcome.antt =====
-- What a call comes to, and arrays as functions of an index.
use lowrisc_kc.Base.{ℕ, ◌==◌, if◌then◌else◌}

-- A call returns, panics, or stops the machine.
pub data Outcome {ℓ} (A : Type ℓ) : Type ℓ where
  returned : A → Outcome A
  panicked : Outcome A
  halted : Outcome A

infixl 5 ◌>>=◌
abbrev pub ◌>>=◌ {ℓ κ} : {A : Type ℓ} {B : Type κ} → Outcome A → (A → Outcome B) → Outcome B
returned a >>= f = f a
panicked >>= f = panicked
halted >>= f = halted

abbrev pub store {ℓ} : {A : Type ℓ} → (ℕ → A) → ℕ → A → ℕ → A
store f p v q = if p == q then v else f q
