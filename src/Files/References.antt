-- ===== src/Files/References.antt =====
-- The reference counts of bbl/file.c: a file with n owners has the count n + 1, and 0 if it has none.
use lowrisc_kc.Base.{
  ℕ, zero, suc, ◌+◌, ◌-◌, ◌<◌, ◌≤◌, ◌^◌, ◌≡◌, ◌≢◌, refl, sym, ap, ◌∙◌, true, false, Bool-cases, inl,
  inr, ltb, ◌==◌, eq_test, ne_test, ==_iff, List, u32, if◌then◌else◌, arith,
}
use lowrisc_kc.Base.Outcome.{Outcome, returned, ◌>>=◌, store}
use lowrisc_kc.Files.{
  FatFs, File, Table, max_files, set_file, file_incref, file_decref, free_from, file_get_free,
  file_openat, open_in, open_mode,
}

-- The count of a file with so many owners.
abbrev pub count_of : ℕ → ℕ
count_of zero = 0
count_of (suc n) = suc (suc n)

suc_test : (k : ℕ) → (suc k == 0) ≡ false
suc_test k = ground arith

false_ne_true : false ≢ true
false_ne_true h = cc

unused : (n : ℕ) → count_of n ≡ 0 → n ≡ 0
unused zero h = refl
unused (suc n) h = absurd (omega arith)

-- The table counts the owners of every file.
abbrev pub Counts : {V F : Type 0} → Table V F → (ℕ → ℕ) → Type 0
Counts t owners = (i : ℕ) → (t.files i).refcnt ≡ count_of (owners i)

module _ {V F : Type 0} where
  -- A file whose count is set counts its new owners.
  Counts-set_file :
      (t : Table V F) (owners : ℕ → ℕ) (i n : ℕ) (f : File F)
      → f.refcnt ≡ count_of n
      → Counts t owners
      → Counts (set_file i f t) (store owners i n)
  unfolding set_file
  Counts-set_file t owners i n f e c j = elim (Bool-cases (i == j)) [
    | inl same ↦ rw (store, same) e
    | inr other ↦ rw (store, other) (c j)
  ]

  -- A file whose count stays.
  Counts-keep_file :
      (t : Table V F) (owners : ℕ → ℕ) (i : ℕ) (f : File F)
      → f.refcnt ≡ (t.files i).refcnt
      → Counts t owners
      → Counts (set_file i f t) owners
  unfolding set_file
  Counts-keep_file t owners i f e c j = elim (Bool-cases (i == j)) [
    | inl same ↦
        rw (store, same) (e ∙ ap (λ (p : ℕ). (t.files p).refcnt) ((==_iff i j).0 same) ∙ c j)
    | inr other ↦ rw (store, other) (c j)
  ]

  -- A further owner of an open file.
  pub file_incref-Counts :
      (t : Table V F) (owners : ℕ → ℕ) (i n : ℕ)
      → owners i ≡ suc n
      → n + 3 < 2 ^ 32
      → Counts t owners
      → (u : Table V F) × (file_incref i t ≡ returned u) × Counts u (store owners i (suc (suc n)))
  unfolding file_incref
  file_incref-Counts t owners i n owned bound c =
      let prev : (t.files i).refcnt ≡ suc (suc n) = c i ∙ ap count_of owned in
      let positive : ltb 0 ((t.files i).refcnt) ≡ true = rw prev (ground arith) in
      let raised : u32 ((t.files i).refcnt + 1) ≡ suc (suc (suc n)) = omega (arith, prev) in
      let f = record (t.files i) { refcnt = u32 ((t.files i).refcnt + 1) } in
      (
        set_file i f t,
        rw (file_incref, positive) refl,
        Counts-set_file t owners i (suc (suc n)) f raised c,
      )

  -- An owner less: the last one closes the file.
  pub file_decref-Counts :
      (fat : FatFs V F) (t : Table V F) (owners : ℕ → ℕ) (i n : ℕ)
      → owners i ≡ suc n
      → n + 3 < 2 ^ 32
      → Counts t owners
      → Counts (file_decref fat i t) (store owners i n)
        × ((file_decref fat i t).volume
            ≡ (if n == 0 then (fat.f_close (t.files i).fd t.volume).0 else t.volume))
  unfolding file_decref
  file_decref-Counts fat t owners i n owned bound c = lowered n (c i ∙ ap count_of owned) bound
    where
      lowered :
          (k : ℕ)
          → (t.files i).refcnt ≡ suc (suc k)
          → k + 3 < 2 ^ 32
          → Counts (file_decref fat i t) (store owners i k)
            × ((file_decref fat i t).volume
                ≡ (if k == 0 then (fat.f_close (t.files i).fd t.volume).0 else t.volume))
      lowered zero prev small =
          let closed = fat.f_close (t.files i).fd t.volume in
          rw (file_decref, eq_test (t.files i).refcnt 2 prev)
            (
              Counts-set_file t owners i zero (record { fd = closed.1; offset = 0; refcnt = 0 })
                  refl c,
              refl,
            )
      lowered (suc k) prev small =
          let left : u32 ((t.files i).refcnt + 2 ^ 32 - 1) ≡ suc (suc k) = omega (arith, prev) in
          let f = record (t.files i) { refcnt = u32 ((t.files i).refcnt + 2 ^ 32 - 1) } in
          rw (file_decref, ne_test (t.files i).refcnt 2 (omega (arith, prev)), suc_test k)
            (Counts-set_file t owners i (suc k) f left c, refl)

  -- A file whose count is 0, at or after `i`.
  free_from-first :
      (t : Table V F) (left i k : ℕ)
      → i ≤ k
      → k < i + left
      → (t.files k).refcnt ≡ 0
      → (j : ℕ) × (free_from left i t ≡ returned j) × ((t.files j).refcnt ≡ 0) × (j < i + left)
  unfolding free_from
  free_from-first t zero i k low high e = absurd (omega arith)
  free_from-first t (suc left) i k low high e = elim (Bool-cases ((t.files i).refcnt == 0)) [
    | inl free ↦ (i, rw (free_from, free) refl, (==_iff (t.files i).refcnt 0).0 free, omega arith)
    | inr used ↦
        let later = free_from-first t left (i + 1) k (above used) (omega arith) e in
        (later.0, rw (free_from, used) (later.1), later.2, omega (arith, later.3))
  ]
    where
      above : ((t.files i).refcnt == 0) ≡ false → i + 1 ≤ k
      above used = elim (Bool-cases (i == k)) [
        | inl same ↦
            let zero_count : (t.files i).refcnt ≡ 0 =
              ap (λ (p : ℕ). (t.files p).refcnt) ((==_iff i k).0 same) ∙ e in
            absurd (false_ne_true (sym used ∙ eq_test (t.files i).refcnt 0 zero_count))
        | inr other ↦ ground arith
      ]

  -- While a file is free and the library opens the name, a file is opened: a free one, which has
  -- one owner from then on.
  pub file_openat-Counts :
      (fat : FatFs V F) (fn : List ℕ) (flags k : ℕ) (t : Table V F) (owners : ℕ → ℕ)
      → k < max_files
      → owners k ≡ 0
      → ((v : V) → (fat.f_open fn (open_mode flags) v).2 ≡ 0)
      → Counts t owners
      → (u : Table V F) × (j : ℕ) × (file_openat fat fn flags t ≡ returned (u, j))
        × (owners j ≡ 0)
        × (j < max_files)
        × Counts u (store owners j 1)
  unfolding file_openat file_get_free
  file_openat-Counts fat fn flags k t owners low free opens c =
      let first = free_from-first t max_files 0 k (omega arith) low (c k ∙ ap count_of free) in
      let j = first.0 in
      let taken = set_file j (record (t.files j) { refcnt = 2 }) t in
      let opened = fat.f_open fn (open_mode flags) t.volume in
      let got : file_get_free t ≡ returned (taken, j) =
        ap
          (λ (o : Outcome ℕ).
            o >>= λ i. returned (set_file i (record (t.files i) { refcnt = 2 }) t, i))
          (first.1) in
      let file = record (taken.files j) { fd = opened.1 } in
      (
        record (set_file j file taken) { volume = opened.0 },
        j,
        ap (λ (o : Outcome (Table V F × ℕ)). o >>= open_in fat fn flags) got
            ∙ rw (open_in, eq_test (opened.2) 0 (opens t.volume)) refl,
        unused (owners j) (sym (c j) ∙ first.2),
        first.3,
        Counts-keep_file taken (store owners j 1) j file refl
            (Counts-set_file t owners j 1 (record (t.files j) { refcnt = 2 }) refl c),
      )
