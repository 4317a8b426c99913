-- ===== src/Console/Whole.antt =====
-- A format whose text fits is written whole, and sent whole.
use lowrisc_kc.Base.{
  ℕ, suc, ◌+◌, ◌-◌, ◌<◌, ◌≤◌, ◌^◌, ◌≡◌, ap₂, refl, ap, ◌∙◌, false, List, [], ◌∷◌, length, get_or,
  ltb, ◌==◌, if◌then◌else◌, arith, lt→ltb,
}
use lowrisc_kc.Console.{Printer, done, vsnprintf, vprintk, delivered, sent, bytes, terminated}
use lowrisc_kc.Console.Text.{Renders}
use lowrisc_kc.Console.Fitting.{Writes, run-Renders}
use lowrisc_kc.Console.Buffer.{written}

zero_written :
    (n : ℕ) (t : List ℕ) (out : ℕ → ℕ) (i : ℕ)
    → length t < n
    → (if length t == i then 0 else written n t 0 out i)
      ≡ (if ltb i (length t) then get_or t i 0 else if i == length t then 0 else out i)
unfolding written
zero_written n t out i h = let start : i - 0 ≡ i = omega arith in rw start (ground arith)

bytes_of :
    (t : List ℕ) (at : ℕ) (out : ℕ → ℕ)
    → ((i : ℕ) → i < length t → out (at + i) ≡ get_or t i 0)
    → bytes (length t) at out ≡ t
unfolding bytes
bytes_of [] at out h = refl
bytes_of (c ∷ t) at out h =
    ap₂ ◌∷◌ (ap out (omega arith) ∙ h 0 (omega arith))
      (bytes_of t (at + 1) out (λ i k. ap out (omega arith) ∙ h (suc i) (omega arith)))

-- A format with a meaning is written whole where its text is shorter than the buffer, whose size is
-- a word: vsnprintf returns, its result is the length of the text, and the buffer holds the text, a
-- zero after it, and what it held before from there on. The text has the shortest signed numeral of
-- a %d, all digits of a %x or %p, the string of a %s and the byte of a %c.
pub vsnprintf-Renders :
    (text : ℕ → List ℕ) (vl : ℕ → ℕ) (n : ℕ) (s t : List ℕ) (out : ℕ → ℕ)
    → n ≤ 2 ^ 64
    → Renders text vl false false 0 s t
    → length t < n
    → (p : Printer) × (vsnprintf text vl n s out ≡ done p)
      × (p.pos ≡ length t)
      × ((i : ℕ)
          → p.out i
            ≡ (if ltb i (length t) then get_or t i 0 else if i == length t then 0 else out i))
unfolding vsnprintf Writes terminated
vsnprintf-Renders text vl n s t out limit r h =
    let (q, e, at, w) = run-Renders text vl n limit out 0 r (omega arith) in
    let size : q.pos ≡ length t = omega (arith, at) in
    (
      terminated n q,
      rw e refl,
      rw (size, lt→ltb (length t) n h) refl,
      λ i. rw (size, lt→ltb (length t) n h, w) (zero_written n t out i h),
    )

-- vprintk sends exactly the text of a format with a meaning that is shorter than its buffer.
pub vprintk-Renders :
    (text : ℕ → List ℕ) (vl : ℕ → ℕ) (s t : List ℕ) (out : ℕ → ℕ)
    → Renders text vl false false 0 s t
    → length t < 256
    → vprintk text vl s out ≡ sent t
unfolding vprintk
vprintk-Renders text vl s t out r h =
    let (p, e, size, w) = vsnprintf-Renders text vl 256 s t out (omega arith) r h in
    ap delivered e
    ∙ rw (size, lt→ltb (length t) 256 h)
        (ap sent (
          bytes_of t 0 p.out
            (λ i k. ap p.out (omega arith) ∙ w i ∙ rw (lt→ltb i (length t) k) refl)))
