-- ===== src/Files/Tests.antt =====
-- A volume of one file, and the theorems on its table.
use lowrisc_kc.Base.{
  ℕ, ◌+◌, ◌<◌, ◌≡◌, refl, Bool-cases, inl, inr, List, [], ◌∷◌, ◌++◌, take, drop, ◌==◌,
  if◌then◌else◌, arith,
}
use lowrisc_kc.Base.Outcome.{returned, store}
use lowrisc_kc.Files.{FatFs, Table, file_decref, file_openat, file_read, file_lseek, max_files}
use lowrisc_kc.Files.References.{Counts, file_decref-Counts, file_openat-Counts}
use lowrisc_kc.Files.Reading.{Reads, file_read-file_read, file_read-file_lseek}

-- The volume is the content of the file, and a file object is its position.
abbrev simple : FatFs (List ℕ) ℕ
simple = record {
  f_open = λ fn mode v. (v, 0, 0);
  f_close = λ f v. (v, f);
  f_lseek = λ f p v. (v, p, 0);
  f_read = λ f n v. (v, f, take n (drop f v));
  f_write = λ f buf v. (v, f, 0);
}

simple-Reads : Reads simple (λ f v. v)
simple-Reads = record {
  seek_keeps = λ f p v h. refl;
  read_keeps = λ f n v. refl;
  read_bytes = λ f p n v h. refl;
}

-- File 0 has one owner.
abbrev table : Table (List ℕ) ℕ
table = record {
  files = λ i. record { fd = 0; offset = 1; refcnt = if i == 0 then 2 else 0 };
  volume = 10 ∷ 20 ∷ 30 ∷ 40 ∷ [];
}

abbrev owners : ℕ → ℕ
owners i = if i == 0 then 1 else 0

table-Counts : Counts table owners
table-Counts i = elim (Bool-cases (i == 0)) [ inl e ↦ rw e refl | inr e ↦ rw e refl ]

file_decref-Counts_example :
    Counts (file_decref simple 0 table) (store owners 0 0)
    × ((file_decref simple 0 table).volume
        ≡ (if 0 == 0 then 10 ∷ 20 ∷ 30 ∷ 40 ∷ [] else 10 ∷ 20 ∷ 30 ∷ 40 ∷ []))
file_decref-Counts_example =
    file_decref-Counts simple table owners 0 0 refl (omega arith) table-Counts

file_openat-Counts_example :
    (u : Table (List ℕ) ℕ) × (j : ℕ) × (file_openat simple [] 0 table ≡ returned (u, j))
    × (owners j ≡ 0)
    × (j < max_files)
    × Counts u (store owners j 1)
file_openat-Counts_example =
    file_openat-Counts simple [] 0 3 table owners (omega arith) refl (λ v. refl) table-Counts

file_read-file_read_example :
    (file_read simple 0 1 table).1 ++ (file_read simple 0 2 ((file_read simple 0 1 table).0)).1
    ≡ take (1 + 2) (drop 1 (10 ∷ 20 ∷ 30 ∷ 40 ∷ []))
file_read-file_read_example =
    file_read-file_read simple (λ f v. v) simple-Reads 0 1 2 table (omega arith) (omega arith)
      (omega arith)

file_read-file_lseek_example :
    (u : Table (List ℕ) ℕ) × (r : ℕ) × (file_lseek simple 0 3 0 table ≡ returned (u, r))
    × ((file_read simple 0 2 u).1 ≡ (file_read simple 0 2 table).1)
file_read-file_lseek_example =
    file_read-file_lseek simple (λ f v. v) simple-Reads 0 3 2 table (omega arith) (omega arith)
      (omega arith)
