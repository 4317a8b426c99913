-- ===== src/Mcall/Chains.antt =====
-- Lists of messages that are linked through `sbi_private_data`, for the queues of bbl/mtrap.c.
use lowrisc_kc.Base.{ℕ, ◌≡◌, ◌≢◌, refl, sym, ◌∙◌, List, [], ◌∷◌, ◌++◌, arith}
use lowrisc_kc.Mcall.State.{store}

-- From `p` the links `next` lead through `xs` to NULL.
abbrev pub IsChain : (ℕ → ℕ) → ℕ → List ℕ → Type 0
IsChain next p [] = p ≡ 0
IsChain next p (x ∷ xs) = (p ≡ x) × (x ≢ 0) × IsChain next (next x) xs

abbrev pub NotIn : ℕ → List ℕ → Type 0
NotIn m [] = Unit
NotIn m (x ∷ xs) = (x ≢ m) × NotIn m xs

abbrev pub IsDistinct : List ℕ → Type 0
IsDistinct [] = Unit
IsDistinct (x ∷ xs) = NotIn x xs × IsDistinct xs

-- The last of a list, NULL if there is none.
abbrev pub last_of : List ℕ → ℕ
last_of [] = 0
last_of (x ∷ []) = x
last_of (x ∷ y ∷ xs) = last_of (y ∷ xs)

abbrev pub IsApart : List ℕ → List ℕ → Type 0
IsApart [] ys = Unit
IsApart (x ∷ xs) ys = NotIn x ys × IsApart xs ys

store_same : (next : ℕ → ℕ) (m v : ℕ) → store next m v m ≡ v
store_same next m v = ground arith

store_other : (next : ℕ → ℕ) (m v x : ℕ) → x ≢ m → store next m v x ≡ next x
store_other next m v x h = ground arith

-- A link of a message that is not in the list does not matter.
pub IsChain-store :
    (next : ℕ → ℕ) (m v p : ℕ) (xs : List ℕ)
    → NotIn m xs
    → IsChain next p xs
    → IsChain (store next m v) p xs
IsChain-store next m v p [] out c = c
IsChain-store next m v p (x ∷ xs) out c = (
  c.0,
  c.1,
  rw (store_other next m v x (out.0)) (IsChain-store next m v (next x) xs (out.1) (c.2)),
)

pub NotIn-last : (m x : ℕ) (xs : List ℕ) → NotIn m (x ∷ xs) → last_of (x ∷ xs) ≢ m
NotIn-last m x [] out = out.0
NotIn-last m x (y ∷ xs) out = NotIn-last m y xs (out.1)

pub NotIn-prefix : (m : ℕ) (xs ys : List ℕ) → NotIn m (xs ++ ys) → NotIn m xs
NotIn-prefix m [] ys out = tt
NotIn-prefix m (x ∷ xs) ys out = (out.0, NotIn-prefix m xs ys (out.1))

-- A message that ends its own chain is linked behind the last one.
pub IsChain-snoc :
    (next : ℕ → ℕ) (m p x : ℕ) (xs : List ℕ)
    → m ≢ 0
    → next m ≡ 0
    → NotIn m (x ∷ xs)
    → IsDistinct (x ∷ xs)
    → IsChain next p (x ∷ xs)
    → IsChain (store next (last_of (x ∷ xs)) m) p ((x ∷ xs) ++ m ∷ [])
IsChain-snoc next m p x [] h end out d c =
    (c.0, c.1, (store_same next x m, h, store_other next x m m (λ e. out.0 (sym e)) ∙ end))
IsChain-snoc next m p x (y ∷ xs) h end out d c =
    let ne : x ≢ last_of (y ∷ xs) = λ e. NotIn-last x y xs (d.0) (sym e) in
    (
      c.0,
      c.1,
      rw (store_other next (last_of (y ∷ xs)) m x ne)
          (IsChain-snoc next m (next x) y xs h end (out.1) (d.1) (c.2)),
    )

pub NotIn-snoc : (a m : ℕ) (xs : List ℕ) → m ≢ a → NotIn a xs → NotIn a (xs ++ m ∷ [])
NotIn-snoc a m [] h out = (h, tt)
NotIn-snoc a m (x ∷ xs) h out = (out.0, NotIn-snoc a m xs h (out.1))

pub IsDistinct-snoc : (m : ℕ) (xs : List ℕ) → NotIn m xs → IsDistinct xs → IsDistinct (xs ++ m ∷ [])
IsDistinct-snoc m [] out d = (tt, tt)
IsDistinct-snoc m (x ∷ xs) out d =
    (NotIn-snoc x m xs (λ e. out.0 (sym e)) (d.0), IsDistinct-snoc m xs (out.1) (d.1))

pub last_of-snoc : (m : ℕ) (xs : List ℕ) → last_of (xs ++ m ∷ []) ≡ m
last_of-snoc m [] = refl
last_of-snoc m (x ∷ []) = refl
last_of-snoc m (x ∷ y ∷ xs) = last_of-snoc m (y ∷ xs)

pub IsApart-snoc : (m : ℕ) (xs ys : List ℕ) → NotIn m xs → IsApart xs ys → IsApart xs (ys ++ m ∷ [])
IsApart-snoc m [] ys out a = tt
IsApart-snoc m (x ∷ xs) ys out a =
    (NotIn-snoc x m ys (λ e. out.0 (sym e)) (a.0), IsApart-snoc m xs ys (out.1) (a.1))

pub IsChain-last_ne :
    (next : ℕ → ℕ) (p x : ℕ) (xs : List ℕ) → IsChain next p (x ∷ xs) → last_of (x ∷ xs) ≢ 0
IsChain-last_ne next p x [] c = c.1
IsChain-last_ne next p x (y ∷ xs) c = IsChain-last_ne next (next x) y xs (c.2)

pub IsApart-last :
    (rs : List ℕ) (x : ℕ) (xs : List ℕ) → IsApart rs (x ∷ xs) → NotIn (last_of (x ∷ xs)) rs
IsApart-last [] x xs a = tt
IsApart-last (r ∷ rs) x xs a = (λ e. NotIn-last r x xs (a.0) (sym e), IsApart-last rs x xs (a.1))

pub IsApart-tail : (rs : List ℕ) (x : ℕ) (xs : List ℕ) → IsApart rs (x ∷ xs) → IsApart rs xs
IsApart-tail [] x xs a = tt
IsApart-tail (r ∷ rs) x xs a = (a.0.1, IsApart-tail rs x xs (a.1))

pub NotIn-remove :
    (a m : ℕ) (xs ys : List ℕ) → NotIn a (xs ++ (m ∷ ys)) → (m ≢ a) × NotIn a (xs ++ ys)
NotIn-remove a m [] ys out = out
NotIn-remove a m (x ∷ xs) ys out =
    let rest = NotIn-remove a m xs ys (out.1) in (rest.0, (out.0, rest.1))

-- A message that is taken out of a list is no longer in it.
pub IsDistinct-remove :
    (m : ℕ) (xs ys : List ℕ)
    → IsDistinct (xs ++ (m ∷ ys))
    → NotIn m (xs ++ ys) × IsDistinct (xs ++ ys)
IsDistinct-remove m [] ys d = d
IsDistinct-remove m (x ∷ xs) ys d =
    let here = NotIn-remove x m xs ys (d.0) in
    let rest = IsDistinct-remove m xs ys (d.1) in ((λ e. here.0 (sym e), rest.0), (here.1, rest.1))

pub IsApart-remove :
    (m : ℕ) (xs ys zs : List ℕ) → IsApart (xs ++ (m ∷ ys)) zs → NotIn m zs × IsApart (xs ++ ys) zs
IsApart-remove m [] ys zs a = a
IsApart-remove m (x ∷ xs) ys zs a =
    let rest = IsApart-remove m xs ys zs (a.1) in (rest.0, (a.0, rest.1))

-- A message is taken out behind `x` by a link around it.
pub IsChain-remove :
    (next : ℕ → ℕ) (m p x : ℕ) (xs ys : List ℕ)
    → IsDistinct ((x ∷ xs) ++ (m ∷ ys))
    → IsChain next p ((x ∷ xs) ++ (m ∷ ys))
    → IsChain (store next (last_of (x ∷ xs)) (next m)) p ((x ∷ xs) ++ ys)
IsChain-remove next m p x [] ys d c =
    let behind = c.2.2 in
    (
      c.0,
      c.1,
      rw (store_same next x (next m)) (IsChain-store next x (next m) (next m) ys ((d.0).1) behind),
    )
IsChain-remove next m p x (y ∷ xs) ys d c =
    let ne : x ≢ last_of (y ∷ xs) =
      λ e. NotIn-last x y xs (NotIn-prefix x (y ∷ xs) (m ∷ ys) (d.0)) (sym e) in
    (
      c.0,
      c.1,
      rw (store_other next (last_of (y ∷ xs)) (next m) x ne)
          (IsChain-remove next m (next x) y xs ys (d.1) (c.2)),
    )

pub IsChain-member_ne :
    (next : ℕ → ℕ) (m p : ℕ) (xs ys : List ℕ) → IsChain next p (xs ++ (m ∷ ys)) → m ≢ 0
IsChain-member_ne next m p [] ys c = c.1
IsChain-member_ne next m p (x ∷ xs) ys c = IsChain-member_ne next m (next x) xs ys (c.2)

pub IsChain-last_of_prefix :
    (next : ℕ → ℕ) (p x : ℕ) (xs ys : List ℕ)
    → IsChain next p ((x ∷ xs) ++ ys)
    → last_of (x ∷ xs) ≢ 0
IsChain-last_of_prefix next p x [] ys c = c.1
IsChain-last_of_prefix next p x (y ∷ xs) ys c = IsChain-last_of_prefix next (next x) y xs ys (c.2)

pub IsApart-last_of_prefix :
    (x : ℕ) (xs ys zs : List ℕ) → IsApart ((x ∷ xs) ++ ys) zs → NotIn (last_of (x ∷ xs)) zs
IsApart-last_of_prefix x [] ys zs a = a.0
IsApart-last_of_prefix x (y ∷ xs) ys zs a = IsApart-last_of_prefix y xs ys zs (a.1)
