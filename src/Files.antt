-- ===== src/Files.antt =====
-- The table of open files, bbl/file.c, over the FatFs library as an interface. The locks have no
-- effect on one hart and are left out, and so is `populate_mapping`, which touches the pages of a
-- buffer. A file is named by its index in `files`. FatFs takes sizes and places of 32 bits: those of
-- a caller are cut to them.
pub mod References
pub mod Reading
mod Tests
use lowrisc_kc.Base.{
  ℕ, zero, suc, ◌+◌, ◌-◌, ◌^◌, ◌%◌, Bool, true, false, List, [], ◌∷◌, length, take, ltb, ◌==◌,
  bit_and, if◌then◌else◌, u32, u64,
}
use lowrisc_kc.Base.Outcome.{Outcome, returned, panicked, ◌>>=◌, store}

-- The functions of driver/ff.h on a volume `V` and file objects `F`, with the FRESULT that they
-- return, 0 for success. `f_read` has the bytes that it stores and `f_write` their number.
pub record FatFs (V F : Type 0) : Type 0 where
  pub f_open : List ℕ → ℕ → V → V × F × ℕ
  pub f_close : F → V → V × F
  pub f_lseek : F → ℕ → V → V × F × ℕ
  pub f_read : F → ℕ → V → V × F × List ℕ
  pub f_write : F → List ℕ → V → V × F × ℕ

-- file_t.
pub record File (F : Type 0) : Type 0 where
  pub fd : F
  pub offset : ℕ
  pub refcnt : ℕ

pub record Table (V F : Type 0) : Type 0 where
  pub files : ℕ → File F
  pub volume : V

abbrev pub max_files : ℕ
max_files = 32

module _ {V F : Type 0} where
  unfoldable pub set_file : ℕ → File F → Table V F → Table V F
  set_file i f t = record t { files = store t.files i f }

  -- The count is taken before the check that the file was open.
  unfoldable pub file_incref : ℕ → Table V F → Outcome (Table V F)
  unfolding set_file
  file_incref i t =
      let prev = (t.files i).refcnt in
      if ltb 0 prev
      then returned (set_file i (record (t.files i) { refcnt = u32 (prev + 1) }) t)
      else panicked

  -- `atomic_cas(&f->refcnt, 0, 2) == 0` from the file `i`, for the files that are left.
  unfoldable pub free_from : ℕ → ℕ → Table V F → Outcome ℕ
  free_from zero i t = panicked
  free_from (suc left) i t = elim ((t.files i).refcnt == 0) [
    | true ↦ returned i
    | false ↦ free_from left (i + 1) t
  ]

  unfoldable pub file_get_free : Table V F → Outcome (Table V F × ℕ)
  unfolding free_from set_file
  file_get_free t = free_from max_files 0 t >>= λ i.
      returned (set_file i (record (t.files i) { refcnt = 2 }) t, i)

  unfoldable pub file_init : Table V F → Table V F
  file_init t = record t {
    files =
        λ i. if ltb i max_files then record (t.files i) { offset = 0; refcnt = 0 } else t.files i;
  }

-- FA_READ and FA_WRITE for O_RDONLY, O_WRONLY and O_RDWR.
unfoldable pub open_mode : ℕ → ℕ
open_mode flags =
    let access = bit_and flags 3 in
    if access == 0 then 1 else if access == 1 then 2 else if access == 2 then 3 else 0

module _ {V F : Type 0} (fat : FatFs V F) where
  unfoldable pub file_decref : ℕ → Table V F → Table V F
  unfolding set_file
  file_decref i t =
      let f = t.files i in
      if f.refcnt == 2
      then (let closed = fat.f_close f.fd t.volume in
          record (set_file i (record { fd = closed.1; offset = 0; refcnt = 0 }) t) {
            volume = closed.0;
          })
      else set_file i (record f { refcnt = u32 (f.refcnt + 2 ^ 32 - 1) }) t

  -- The name is opened in the free file; a name that cannot be opened panics.
  unfoldable pub open_in : List ℕ → ℕ → Table V F × ℕ → Outcome (Table V F × ℕ)
  unfolding open_mode set_file
  open_in fn flags (t, i) =
      let opened = fat.f_open fn (open_mode flags) t.volume in
      if opened.2 == 0
      then returned
          (record (set_file i (record (t.files i) { fd = opened.1 }) t) { volume = opened.0 }, i)
      else panicked

  unfoldable pub file_openat : List ℕ → ℕ → Table V F → Outcome (Table V F × ℕ)
  unfolding file_get_free open_in
  file_openat fn flags t = file_get_free t >>= open_in fn flags

  unfoldable pub file_open : List ℕ → ℕ → Table V F → Outcome (Table V F × ℕ)
  unfolding file_openat
  file_open fn flags t = file_openat fn flags t

  -- The bytes that are stored into the buffer.
  unfoldable pub file_read : ℕ → ℕ → Table V F → Table V F × List ℕ
  unfolding set_file
  file_read i size t =
      let f = t.files i in
      let sought = fat.f_lseek f.fd f.offset t.volume in
      let got = fat.f_read (sought.1) (u32 size) (sought.0) in
      (
        record (set_file i (record f { fd = got.1; offset = u32 (f.offset + length (got.2)) }) t) {
          volume = got.0;
        },
        got.2,
      )

  unfoldable pub file_pread : ℕ → ℕ → ℕ → Table V F → Outcome (Table V F × List ℕ)
  unfolding set_file
  file_pread i size offset t =
      let f = t.files i in
      let sought = fat.f_lseek f.fd (u32 offset) t.volume in
      if sought.2 == 0
      then (let got = fat.f_read (sought.1) (u32 size) (sought.0) in
          returned (record (set_file i (record f { fd = got.1 }) t) { volume = got.0 }, got.2))
      else panicked

  -- The number of bytes that are written. The size is that of `buf`.
  unfoldable pub file_write : ℕ → List ℕ → Table V F → Table V F × ℕ
  unfolding set_file
  file_write i buf t =
      let f = t.files i in
      let sought = fat.f_lseek f.fd f.offset t.volume in
      let put = fat.f_write (sought.1) (take (u32 (length buf)) buf) (sought.0) in
      (
        record (set_file i (record f { fd = put.1; offset = u32 (f.offset + put.2) }) t) {
          volume = put.0;
        },
        put.2,
      )

  unfoldable pub file_pwrite : ℕ → List ℕ → ℕ → Table V F → Table V F × ℕ
  unfolding set_file
  file_pwrite i buf offset t =
      let f = t.files i in
      let sought = fat.f_lseek f.fd (u32 offset) t.volume in
      let put = fat.f_write (sought.1) (take (u32 (length buf)) buf) (sought.0) in
      (record (set_file i (record f { fd = put.1 }) t) { volume = put.0 }, put.2)

  -- SEEK_SET is 0 and SEEK_CUR is 1. The offset of the file is left as it is.
  unfoldable pub file_lseek : ℕ → ℕ → ℕ → Table V F → Outcome (Table V F × ℕ)
  unfolding set_file
  file_lseek i ptr dir t =
      let f = t.files i in
      let seek = λ (to : ℕ).
        let sought = fat.f_lseek f.fd (u32 to) t.volume in
        returned (
          record (set_file i (record f { fd = sought.1 }) t) { volume = sought.0 },
          if sought.2 == 0 then to else 2 ^ 64 - 1,
        ) in
      if dir == 0 then seek ptr else if dir == 1 then seek (u64 (f.offset + ptr)) else panicked
