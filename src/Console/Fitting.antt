-- ===== src/Console/Fitting.antt =====
-- The steps of `vsnprintf` through a format whose text fits.
use lowrisc_kc.Base.{
  ℕ, ◌+◌, ◌^◌, ◌<◌, ◌≤◌, ◌≡◌, ◌≢◌, ap₂, refl, sym, ap, ◌∙◌, Bool, true, false, List, [], ◌∷◌, ◌++◌,
  length, length-append, if◌then◌else◌, arith, lt→ltb, u8, ne_test,
}
use lowrisc_kc.Console.{
  Printer, done, put, finish, finished, print_hex, print_decimal, print_char, put_string,
  store_decimal, directive, step, run, word_arg, is_negative, magnitude,
}
use lowrisc_kc.Base.Int.{neg_part}
use lowrisc_kc.Base.Numerals.{signed_text}
use lowrisc_kc.Console.Text.{
  Renders, end, plain, percent, long, pointer, hex, signed, string, char, integer, all_digits,
}
use lowrisc_kc.Console.Digits.{
  signed_decimal, unsigned_decimal, all_digits_lem, signed_decimal_lem, not_least,
}
use lowrisc_kc.Console.Buffer.{
  appended, appended-append, written, written-append, written-nil, put_lem, hex_loop_lem,
  store_decimal_lem, put_string-fits,
}

module _ (text : ℕ → List ℕ) (vl : ℕ → ℕ) (n : ℕ) (limit : n ≤ 2 ^ 64) where
  abbrev pub printer : (ℕ → ℕ) → ℕ → ℕ → Bool → Bool → Printer
  printer out pos a f l = record { out = out; pos = pos; arg = a; format = f; longarg = l }

  -- The printer after a text is stored.
  abbrev moved : List ℕ → (ℕ → ℕ) → ℕ → ℕ → Bool → Bool → Printer
  moved u out pos a f l = printer (written n u pos out) (pos + length u) a f l

  module _ (out : ℕ → ℕ) (pos a : ℕ) (l : Bool) where
    print_hex_lem :
        print_hex text vl n (printer out pos a true l)
        ≡ moved (all_digits l (vl a)) out pos (a + 1) false false
    unfolding print_hex finish appended
    print_hex_lem =
        ap finish (
          hex_loop_lem n (if l then 16 else 8) (word_arg l (vl a)) (printer out pos (a + 1) true l))
        ∙ ap (λ (t : List ℕ). moved t out pos (a + 1) false false) (all_digits_lem l (vl a))

    decimal_lem :
        (neg : Bool) (m : ℕ)
        → finish (
            store_decimal n m (
              if neg
              then put n b'-' (printer out pos (a + 1) true l)
              else printer out pos (a + 1) true l))
          ≡ moved
              (if neg then b'-' ∷ unsigned_decimal m else unsigned_decimal m)
              out
              pos
              (a + 1)
              false
              false
    unfolding finish appended
    decimal_lem true m =
        ap (λ (p : Printer). finish (store_decimal n m p))
          (put_lem n b'-' (printer out pos (a + 1) true l))
        ∙ ap finish (
            store_decimal_lem n m (appended n (b'-' ∷ []) (printer out pos (a + 1) true l))
            ∙ sym (
                appended-append n (b'-' ∷ []) (unsigned_decimal m)
                  (printer out pos (a + 1) true l)))
    decimal_lem false m = ap finish (store_decimal_lem n m (printer out pos (a + 1) true l))

    print_decimal_lem :
        neg_part (integer l (vl a)) < 2 ^ 63
        → print_decimal text vl n (printer out pos a true l)
          ≡ done (moved (signed_text (integer l (vl a))) out pos (a + 1) false false)
    unfolding print_decimal signed_decimal
    print_decimal_lem h =
        rw (print_decimal, not_least l (vl a) h)
          (ap done (decimal_lem (is_negative (word_arg l (vl a))) (magnitude (word_arg l (vl a)))))
        ∙ ap (λ (t : List ℕ). done (moved t out pos (a + 1) false false))
            (signed_decimal_lem l (vl a))

    print_char_lem :
        pos + 1 < n
        → print_char text vl n (printer out pos a true l)
          ≡ moved (u8 (vl a) ∷ []) out pos (a + 1) false false
    unfolding print_char finish appended
    print_char_lem h =
        ap
          (λ (b : Bool). finish (record (put n (u8 (vl a)) (printer out pos a true l)) {
            arg = if b then a + 1 else a;
          }))
          (lt→ltb (pos + 1) n h)
        ∙ ap (λ (p : Printer). finish (record p { arg = a + 1 }))
            (put_lem n (u8 (vl a)) (printer out pos a true l))

  -- A step that stores `u` in front of the text of the rest.
  unfoldable pub Writes : List ℕ → List ℕ → (ℕ → ℕ) → ℕ → ℕ → Bool → Bool → Type 0
  Writes s t out pos a f l =
      (q : Printer) × (run text vl n s (printer out pos a f l) ≡ done q)
      × (q.pos ≡ pos + length t)
      × (q.out ≡ written n t pos out)

  run_step :
      (c : ℕ) (s u t : List ℕ) (out : ℕ → ℕ) (pos a a' : ℕ) (f l f' l' : Bool)
      → step text vl n c (printer out pos a f l) ≡ done (moved u out pos a' f' l')
      → Writes s t (written n u pos out) (pos + length u) a' f' l'
      → Writes (c ∷ s) (u ++ t) out pos a f l
  unfolding Writes run
  run_step c s u t out pos a a' f l f' l' e (q, r, p, o) =
      (q, rw e r, p ∙ omega (arith, length-append u t), o ∙ sym (written-append n u t pos out))

  -- A directive with the flags up, and the start of one.
  module _ (c : ℕ) (s t : List ℕ) (out : ℕ → ℕ) (pos a : ℕ) (l : Bool) where
    plain_step :
        c ≢ b'%'
        → step text vl n c (printer out pos a false l) ≡ done (moved (c ∷ []) out pos a false l)
    unfolding step appended
    plain_step ne = rw (ne_test c b'%' ne) (ap done (put_lem n c (printer out pos a false l)))

    flag_step :
        (f l' : Bool)
        → step text vl n c (printer out pos a f l) ≡ done (printer out pos a true l')
        → Writes s t out pos a true l'
        → Writes (c ∷ s) t out pos a f l
    unfolding Writes run
    flag_step f l' e (q, r, p, o) = (q, rw e r, p, o)

    string_lem :
        pos + length (text (vl a)) < n
        → finished (put_string n (text (vl a)) (printer out pos (a + 1) true l))
          ≡ done (moved (text (vl a)) out pos (a + 1) false false)
    unfolding finished finish appended
    string_lem h =
        ap finished (put_string-fits n (text (vl a)) (printer out pos (a + 1) true l) limit h)

    string_step :
        c ≡ b's'
        → pos + length (text (vl a)) < n
        → step text vl n c (printer out pos a true l)
          ≡ done (moved (text (vl a)) out pos (a + 1) false false)
    unfolding step directive
    string_step e h = rw e (string_lem h)

    prefix_lem :
        put n b'x' (put n b'0' (printer out pos a true true))
        ≡ moved (b'x' ∷ []) (written n (b'0' ∷ []) pos out) (pos + 1) a true true
    unfolding appended
    prefix_lem =
        ap (put n b'x') (put_lem n b'0' (printer out pos a true true))
        ∙ put_lem n b'x' (moved (b'0' ∷ []) out pos a true true)

    pointer_step :
        c ≡ b'p'
        → step text vl n c (printer out pos a true l)
          ≡ done (moved (b'0' ∷ b'x' ∷ all_digits true (vl a)) out pos (a + 1) false false)
    unfolding step directive
    pointer_step e =
        let h = all_digits true (vl a) in
        let o = written n (b'0' ∷ []) pos out in
        rw e (
          ap (λ (p : Printer). done (print_hex text vl n p)) prefix_lem
          ∙ ap done (print_hex_lem (written n (b'x' ∷ []) (pos + 1) o) (pos + 1 + 1) a true)
          ∙ ap₂ (λ (o : ℕ → ℕ) (q : ℕ). done (printer o q (a + 1) false false))
              (sym (
                written-append n (b'0' ∷ []) (b'x' ∷ h) pos out
                ∙ written-append n (b'x' ∷ []) h (pos + 1) o))
              (omega arith))

  -- A directive that stores a piece of a text that fits.
  piece :
      (out : ℕ → ℕ) (pos : ℕ) (l : Bool) (a c : ℕ) (s t u v : List ℕ)
      → v ≡ u ++ t
      → pos + length v < n
      → (pos + length u < n
          → step text vl n c (printer out pos a true l)
            ≡ done (moved u out pos (a + 1) false false))
      → (pos + length u + length t < n
          → Writes s t (written n u pos out) (pos + length u) (a + 1) false false)
      → Writes (c ∷ s) v out pos a true l
  piece out pos l a c s t u v w h e r =
      let size : length v ≡ length u + length t = ap length w ∙ length-append u t in
      rw w (
        run_step c s u t out pos a (a + 1) true l false false (e (omega (arith, size)))
          (r (omega (arith, size))))

  pub run-Renders :
      {f l : Bool} {a : ℕ} {s t : List ℕ} (out : ℕ → ℕ) (pos : ℕ)
      → Renders text vl f l a s t
      → pos + length t < n
      → Writes s t out pos a f l
  run-Renders out pos (end f l a) h =
      unfold Writes run in (printer out pos a f l, refl, omega arith, sym (written-nil n pos out))
  run-Renders out pos (plain l a c s t ne r) h =
      run_step c s (c ∷ []) t out pos a a false l false l (plain_step c s t out pos a l ne)
        (run-Renders (written n (c ∷ []) pos out) (pos + 1) r (omega arith))
  run-Renders out pos (percent l a c s t e r) h =
      flag_step c s t out pos a l false l (unfold step in rw e refl) (run-Renders out pos r h)
  run-Renders out pos (long l a c s t e r) h =
      flag_step c s t out pos a l true true (unfold step directive in rw e refl)
        (run-Renders out pos r h)
  run-Renders out pos (pointer l a c s t u e w r) h =
      piece out pos l a c s t (b'0' ∷ b'x' ∷ all_digits true (vl a)) u w h
        (λ k. pointer_step c s t out pos a l e) (λ k. run-Renders _ _ r k)
  run-Renders out pos (hex l a c s t u e w r) h =
      piece out pos l a c s t (all_digits l (vl a)) u w h
        (λ k. unfold step directive in rw e (ap done (print_hex_lem out pos a l)))
        (λ k. run-Renders _ _ r k)
  run-Renders out pos (signed l a c s t u e fits w r) h =
      piece out pos l a c s t (signed_text (integer l (vl a))) u w h
        (λ k. unfold step directive in rw e (print_decimal_lem out pos a l fits))
        (λ k. run-Renders _ _ r k)
  run-Renders out pos (string l a c s t u e w r) h =
      piece out pos l a c s t (text (vl a)) u w h (λ k. string_step c s t out pos a l e k)
        (λ k. run-Renders _ _ r k)
  run-Renders out pos (char l a c s t u e w r) h =
      piece out pos l a c s t (u8 (vl a) ∷ []) u w h
        (λ k. unfold step directive in rw e (ap done (print_char_lem out pos a l k)))
        (λ k. run-Renders _ _ r k)
