-- ===== src/Console/Bounds.antt =====
-- The buffer's end in `vsnprintf`.
use lowrisc_kc.Base.{
  ℕ, ◌+◌, ◌-◌, ◌<◌, ◌≤◌, ◌≡◌, refl, ap, ◌∙◌, Bool, true, false, List, [], ◌∷◌, length, ltb, ◌==◌,
  if◌then◌else◌, arith, u8, ne_test, u64, ◌^◌, zero, suc, Bool-cases, inl, inr,
}
use lowrisc_kc.Base.Outcome.{store}
use lowrisc_kc.Console.{
  Printer, Printed, done, bad_format, endless, undefined, put, finish, finished, print_hex,
  print_decimal, print_char, put_string, string_loop, hex_loop, store_decimal, directive, step, run,
  word_arg, is_negative, magnitude, terminated, vsnprintf, started, ◌>>=◌,
}
use lowrisc_kc.Console.Digits.{hexadecimal, unsigned_decimal}
use lowrisc_kc.Console.Buffer.{written, appended, put_lem, hex_loop_lem, store_decimal_lem}

module _ (n i : ℕ) (outside : n ≤ i) where
  appended-out : (t : List ℕ) (p : Printer) → (appended n t p).out i ≡ p.out i
  unfolding appended written
  appended-out t p = ground arith

  put-out : (c : ℕ) (p : Printer) → (put n c p).out i ≡ p.out i
  put-out c p = ap (λ (q : Printer). q.out i) (put_lem n c p) ∙ appended-out (c ∷ []) p

  hex_loop-out : (k num : ℕ) (p : Printer) → (hex_loop n k num p).out i ≡ p.out i
  hex_loop-out k num p =
      ap (λ (q : Printer). q.out i) (hex_loop_lem n k num p) ∙ appended-out (hexadecimal k num) p

  store_decimal-out : (num : ℕ) (p : Printer) → (store_decimal n num p).out i ≡ p.out i
  store_decimal-out num p =
      ap (λ (q : Printer). q.out i) (store_decimal_lem n num p)
      ∙ appended-out (unsigned_decimal num) p

  signed-out :
      (neg : Bool) (num : ℕ) (p : Printer)
      → (store_decimal n num (if neg then put n b'-' p else p)).out i ≡ p.out i
  signed-out true num p = store_decimal-out num (put n b'-' p) ∙ put-out b'-' p
  signed-out false num p = store_decimal-out num p

  -- The byte at `i` is as it was.
  abbrev Keeps : Printed → ℕ → Type 0
  Keeps (done q) v = q.out i ≡ v
  Keeps bad_format v = ℕ
  Keeps endless v = ℕ
  Keeps undefined v = ℕ

  if-Keeps :
      (b : Bool) (x y : Printed) (v : ℕ) → Keeps x v → Keeps y v → Keeps (if b then x else y) v
  if-Keeps true x y v h k = h
  if-Keeps false x y v h k = k

  string_loop-Keeps :
      (rounds : ℕ) (cs : List ℕ) (p : Printer)
      → Keeps (finished (string_loop n rounds cs p)) (p.out i)
  unfolding string_loop finished finish
  string_loop-Keeps zero [] p = refl
  string_loop-Keeps zero (c ∷ cs) p = 0
  string_loop-Keeps (suc rounds) [] p = refl
  string_loop-Keeps (suc rounds) (c ∷ cs) p =
      let next = u64 (p.pos + 1) in
      elim (Bool-cases (ltb next n)) [
        | inr full ↦
            rw (string_loop, full) (string_loop-Keeps rounds (c ∷ cs) (record p { pos = next }))
        | inl room ↦ elim (Bool-cases (next == 0)) [
          | inl wrapped ↦ rw (string_loop, room, wrapped) 0
          | inr further ↦
              let apart : (next - 1 == i) ≡ false = ground arith in
              let same : store p.out (next - 1) c i ≡ p.out i = rw apart refl in
              rw (string_loop, room, further, ← same)
                (string_loop-Keeps rounds cs
                  (record p { out = store p.out (next - 1) c; pos = next }))
        ]
      ]

  module _ (text : ℕ → List ℕ) (vl : ℕ → ℕ) where
    print_hex-out : (p : Printer) → (print_hex text vl n p).out i ≡ p.out i
    unfolding print_hex finish
    print_hex-out p =
        hex_loop-out (if p.longarg then 16 else 8) (word_arg p.longarg (vl p.arg))
          (record p { arg = p.arg + 1 })

    print_decimal-Keeps : (p : Printer) → Keeps (print_decimal text vl n p) (p.out i)
    unfolding print_decimal finish
    print_decimal-Keeps p = if-Keeps (word_arg p.longarg (vl p.arg) == 2 ^ 63) _ _ (p.out i) 0 (
        signed-out (is_negative (word_arg p.longarg (vl p.arg)))
          (magnitude (word_arg p.longarg (vl p.arg))) (record p { arg = p.arg + 1 }))

    print_char-out : (p : Printer) → (print_char text vl n p).out i ≡ p.out i
    unfolding print_char finish
    print_char-out p = put-out (u8 (vl p.arg)) p

    step-Keeps : (c : ℕ) (p : Printer) → Keeps (step text vl n c p) (p.out i)
    unfolding step directive put_string
    step-Keeps c p =
        if-Keeps p.format _ _ _
          (if-Keeps (c == b'l') _ _ _ refl (
            if-Keeps (c == b'p') _ _ _
              (print_hex-out (put n b'x' (put n b'0' (record p { longarg = true })))
                ∙ put-out b'x' (put n b'0' (record p { longarg = true }))
                ∙ put-out b'0' (record p { longarg = true }))
              (if-Keeps (c == b'x') _ _ _ (print_hex-out p) (
                if-Keeps (c == b'd') _ _ _ (print_decimal-Keeps p) (
                  if-Keeps (c == b's') _ _ _
                    (string_loop-Keeps (length (text (vl p.arg)) + 2 ^ 64) (text (vl p.arg))
                      (record p { arg = p.arg + 1 }))
                    (if-Keeps (c == b'c') _ _ _ (print_char-out p) 0))))))
          (if-Keeps (c == b'%') _ _ _ refl (put-out c p))

    next-Keeps :
        (r : Printed) (v : ℕ) (s : List ℕ)
        → Keeps r v
        → ((q : Printer) → Keeps (run text vl n s q) (q.out i))
        → Keeps (r >>= (λ q. run text vl n s q)) v
    next-Keeps (done q) v s h ih = rw (← h) (ih q)
    next-Keeps bad_format v s h ih = h
    next-Keeps endless v s h ih = h
    next-Keeps undefined v s h ih = h

    run-Keeps : (s : List ℕ) (p : Printer) → Keeps (run text vl n s p) (p.out i)
    unfolding run
    run-Keeps [] p = refl
    run-Keeps (c ∷ s) p = next-Keeps (step text vl n c p) (p.out i) s (step-Keeps c p) (run-Keeps s)

  run_out :
      (text : ℕ → List ℕ) (vl : ℕ → ℕ) (s : List ℕ) (p q : Printer)
      → run text vl n s p ≡ done q
      → q.out i ≡ p.out i
  run_out text vl s p q e = rw e at (run-Keeps text vl s p)

  terminated-out : (q p : Printer) → p ≡ terminated n q → p.out i ≡ q.out i
  unfolding terminated
  terminated-out q p e = elim (Bool-cases (ltb q.pos n)) [
    | inl b ↦ rw (e, b) (ground arith)
    | inr b ↦
        rw (e, b) (elim (Bool-cases (n == 0)) [ inl z ↦ rw z refl | inr z ↦ rw z (ground arith) ])
  ]

of_done :
    (n : ℕ) (r : Printed) (p : Printer)
    → (r >>= λ q. done (terminated n q)) ≡ done p
    → (q : Printer) × (r ≡ done q) × (p ≡ terminated n q)
of_done n (done q) p e = (q, refl, cc)
of_done n bad_format p e = cc
of_done n endless p e = cc
of_done n undefined p e = cc

terminated_zero :
    (n : ℕ) (q p : Printer)
    → p ≡ terminated n q
    → 0 < n
    → p.out (if ltb p.pos n then p.pos else n - 1) ≡ 0
unfolding terminated
terminated_zero n q p e h = elim (Bool-cases (ltb q.pos n)) [
  | inl b ↦ rw (e, b) (ground arith)
  | inr b ↦ rw (e, b, ne_test n 0 (omega arith)) (ground arith)
]

-- What vsnprintf returns leaves every byte from n on as it was, and with room for one the text
-- ends with a zero below n, after the text or at n - 1.
pub vsnprintf-in_bounds :
    (text : ℕ → List ℕ) (vl : ℕ → ℕ) (n : ℕ) (s : List ℕ) (out : ℕ → ℕ) (p : Printer)
    → vsnprintf text vl n s out ≡ done p
    → ((i : ℕ) → n ≤ i → p.out i ≡ out i)
      × (0 < n → p.out (if ltb p.pos n then p.pos else n - 1) ≡ 0)
unfolding vsnprintf
vsnprintf-in_bounds text vl n s out p e =
    let (q, r, w) = of_done n (run text vl n s (started out)) p e in
    (
      λ i h. terminated-out n i h q p w ∙ run_out n i h text vl s (started out) q r,
      λ h. terminated_zero n q p w h,
    )
