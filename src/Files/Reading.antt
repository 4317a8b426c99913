-- ===== src/Files/Reading.antt =====
-- What `file_read`, `file_pread` and `file_lseek` of bbl/file.c read, on a library that reads the
-- content of a file from the place that it was told.
use lowrisc_kc.Base.{
  ℕ, zero, suc, ◌+◌, ◌-◌, ◌<◌, ◌≤◌, ◌^◌, ◌≡◌, refl, sym, ap, ◌∙◌, List, [], ◌∷◌, ◌++◌, length, take,
  drop, length-take, length-drop, ap₂, ◌==◌, eq_test, if◌then◌else◌, u32, arith,
}
use lowrisc_kc.Base.Outcome.{returned, store}
use lowrisc_kc.Files.{FatFs, File, Table, set_file, file_read, file_lseek}

-- The documented behaviour of f_lseek and f_read: a seek to a place in the content and a read do not
-- change it, and a read after such a seek has the bytes of the content from there, up to its end. A
-- seek past the end of a file that can be written makes it longer, and nothing is said of it.
pub record Reads {V F : Type 0} (fat : FatFs V F) (content : F → V → List ℕ) : Type 0 where
  pub seek_keeps :
      (f : F) (p : ℕ) (v : V)
      → p ≤ length (content f v)
      → content ((fat.f_lseek f p v).1) ((fat.f_lseek f p v).0) ≡ content f v
  pub read_keeps :
      (f : F) (n : ℕ) (v : V) → content ((fat.f_read f n v).1) ((fat.f_read f n v).0) ≡ content f v
  pub read_bytes :
      (f : F) (p n : ℕ) (v : V)
      → p ≤ length (content f v)
      → (fat.f_read ((fat.f_lseek f p v).1) n ((fat.f_lseek f p v).0)).2
        ≡ take n (drop p (content f v))

drop-nil : (n : ℕ) → drop {A = ℕ} n [] ≡ []
drop-nil zero = refl
drop-nil (suc n) = refl

drop-add : (p q : ℕ) (xs : List ℕ) → drop (p + q) xs ≡ drop q (drop p xs)
drop-add zero q xs = ap (λ (t : ℕ). drop t xs) (omega arith)
drop-add (suc p) q [] = drop-nil (suc p + q) ∙ sym (drop-nil q)
drop-add (suc p) q (x ∷ xs) =
    let e : suc p + q ≡ suc (p + q) = omega arith in
    ap (λ (t : ℕ). drop t (x ∷ xs)) e ∙ drop-add p q xs

take-nil : (n : ℕ) → take {A = ℕ} n [] ≡ []
take-nil zero = refl
take-nil (suc n) = refl

take-add : (n k : ℕ) (xs : List ℕ) → take (n + k) xs ≡ take n xs ++ take k (drop n xs)
take-add zero k xs = ap (λ (t : ℕ). take t xs) (omega arith)
take-add (suc n) k [] = take-nil (suc n + k) ∙ sym (take-nil k)
take-add (suc n) k (x ∷ xs) =
    let e : suc n + k ≡ suc (n + k) = omega arith in
    ap (λ (t : ℕ). take t (x ∷ xs)) e ∙ ap (λ (t : List ℕ). x ∷ t) (take-add n k xs)

-- What has been taken is dropped.
drop-length-take : (n : ℕ) (xs : List ℕ) → drop (length (take n xs)) xs ≡ drop n xs
drop-length-take zero xs = refl
drop-length-take (suc n) [] = refl
drop-length-take (suc n) (x ∷ xs) = drop-length-take n xs

module _ {V F : Type 0} (fat : FatFs V F) (content : F → V → List ℕ)
    (reads : Reads fat content) where
  -- The content of the file `i`.
  abbrev pub content_of : ℕ → Table V F → List ℕ
  content_of i t = content (t.files i).fd t.volume

  -- The file that was written into the table.
  set_self : (files : ℕ → File F) (i : ℕ) (f : File F) → store files i f i ≡ f
  set_self files i f = rw (eq_test i i refl) refl

  -- The offset of a file lies in its content.
  abbrev pub IsInside : ℕ → Table V F → Type 0
  IsInside i t = (t.files i).offset ≤ length (content_of i t)

  file_read_bytes :
      (i n : ℕ) (t : Table V F)
      → IsInside i t
      → (file_read fat i n t).1 ≡ take (u32 n) (drop (t.files i).offset (content_of i t))
  unfolding file_read
  file_read_bytes i n t inside =
      reads.read_bytes (t.files i).fd (t.files i).offset (u32 n) t.volume inside

  file_read_file :
      (i n : ℕ) (t : Table V F)
      → (((file_read fat i n t).0).files i).offset
        ≡ u32 ((t.files i).offset + length ((file_read fat i n t).1))
  unfolding file_read set_file
  file_read_file i n t = rw (store, eq_test i i refl) refl

  file_read_content :
      (i n : ℕ) (t : Table V F)
      → IsInside i t
      → content_of i ((file_read fat i n t).0) ≡ content_of i t
  unfolding file_read set_file
  file_read_content i n t inside =
      let f = t.files i in
      let sought = fat.f_lseek f.fd f.offset t.volume in
      let got = fat.f_read (sought.1) (u32 n) (sought.0) in
      let file = record f { fd = got.1; offset = u32 (f.offset + length (got.2)) } in
      ap (λ (g : File F). content g.fd (got.0)) (set_self t.files i file)
      ∙ reads.read_keeps (sought.1) (u32 n) (sought.0)
      ∙ reads.seek_keeps f.fd f.offset t.volume inside

  -- Two reads in a row from an offset in the content have its bytes from the offset on, as one read
  -- of both sizes has, while the sizes fit 32 bits and the offset stays below 2^32.
  pub file_read-file_read :
      (i n k : ℕ) (t : Table V F)
      → IsInside i t
      → (t.files i).offset + n < 2 ^ 32
      → k < 2 ^ 32
      → (file_read fat i n t).1 ++ (file_read fat i k ((file_read fat i n t).0)).1
        ≡ take (n + k) (drop (t.files i).offset (content_of i t))
  file_read-file_read i n k t inside bound small =
      let p = (t.files i).offset in
      let u = (file_read fat i n t).0 in
      let rest = drop p (content_of i t) in
      let whole_n : u32 n ≡ n = omega arith in
      let whole_k : u32 k ≡ k = omega arith in
      let first : (file_read fat i n t).1 ≡ take n rest =
        file_read_bytes i n t inside ∙ ap (λ (s : ℕ). take s rest) whole_n in
      let size : length (take n rest) ≤ n = omega (arith, length-take n rest) in
      let room : p + length (take n rest) ≤ length (content_of i t) =
        omega (arith, length-take n rest, length-drop p (content_of i t)) in
      let moved : (u.files i).offset ≡ p + length (take n rest) =
        file_read_file i n t ∙ ap (λ (b : List ℕ). u32 (p + length b)) first ∙ omega arith in
      let same : content_of i u ≡ content_of i t = file_read_content i n t inside in
      let length_same : length (content_of i u) ≡ length (content_of i t) =
        ap (λ (c : List ℕ). length c) same in
      let second : (file_read fat i k u).1 ≡ take k (drop n rest) =
        file_read_bytes i k u (omega (arith, moved, length_same, room))
        ∙ ap (λ (s : ℕ). take s (drop (u.files i).offset (content_of i u))) whole_k
        ∙ ap₂ (λ (o : ℕ) (c : List ℕ). take k (drop o c)) moved same
        ∙ ap (λ (c : List ℕ). take k c)
            (drop-add p (length (take n rest)) (content_of i t) ∙ drop-length-take n rest) in
      ap₂ (λ (a b : List ℕ). a ++ b) first second ∙ sym (take-add n k rest)

  -- `file_lseek` to a place in the content, which fits 32 bits, has no effect on the next
  -- `file_read`, which reads from the offset before it.
  pub file_read-file_lseek :
      (i ptr n : ℕ) (t : Table V F)
      → IsInside i t
      → ptr < 2 ^ 32
      → ptr ≤ length (content_of i t)
      → (u : Table V F) × (r : ℕ) × (file_lseek fat i ptr 0 t ≡ returned (u, r))
        × ((file_read fat i n u).1 ≡ (file_read fat i n t).1)
  unfolding file_lseek set_file
  file_read-file_lseek i ptr n t inside small there =
      let f = t.files i in
      let to : u32 ptr ≡ ptr = omega arith in
      let sought = fat.f_lseek f.fd (u32 ptr) t.volume in
      let file = record f { fd = sought.1 } in
      let u = record (set_file i file t) { volume = sought.0 } in
      let same_file : u.files i ≡ file = set_self t.files i file in
      let same_content : content_of i u ≡ content_of i t =
        ap (λ (g : File F). content g.fd (sought.0)) same_file
        ∙ reads.seek_keeps f.fd (u32 ptr) t.volume (omega (arith, to, there)) in
      let same_offset : (u.files i).offset ≡ f.offset = ap (λ (g : File F). g.offset) same_file in
      let length_same : length (content_of i u) ≡ length (content_of i t) =
        ap (λ (c : List ℕ). length c) same_content in
      (
        u,
        if sought.2 == 0 then ptr else 2 ^ 64 - 1,
        refl,
        file_read_bytes i n u (omega (arith, same_offset, length_same, inside))
            ∙ ap₂ (λ (o : ℕ) (c : List ℕ). take (u32 n) (drop o c)) same_offset same_content
            ∙ sym (file_read_bytes i n t inside),
      )
