-- ===== src/Console/Buffer.antt =====
-- What the stores of `vsnprintf` leave in the buffer.
use lowrisc_kc.Base.{
  ℕ, zero, suc, ◌+◌, ◌-◌, ◌/◌, ◌%◌, ◌≤◌, ◌≡◌, refl, sym, ap, ap₂, ◌∙◌, fun_ext, Bool-cases, inl,
  inr, ◌&&◌, List, [], ◌∷◌, ◌++◌, length, get_or, length-append, ltb, leb, ◌==◌, if◌then◌else◌,
  arith, ◌<◌, ◌^◌, true, false, u64,
}
use lowrisc_kc.Base.Outcome.{store}
use lowrisc_kc.Console.{
  Printer, done, put, put_at, hex_loop, store_digits, store_decimal, put_string, string_loop,
  count_digits, max_digits,
}
use lowrisc_kc.Console.Digits.{decimal, hexadecimal, unsigned_decimal}

module _ (n : ℕ) where
  -- The buffer with a text from `pos` on, as far as it fits.
  unfoldable pub written : List ℕ → ℕ → (ℕ → ℕ) → ℕ → ℕ
  written t pos out i =
      if leb pos i && ltb i (pos + length t) && ltb (i + 1) n then get_or t (i - pos) 0 else out i

  unfoldable pub appended : List ℕ → Printer → Printer
  appended t p = record p { out = written t p.pos p.out; pos = p.pos + length t }

get_or-append {ℓ} :
    {A : Type ℓ} (xs ys : List A) (i : ℕ) (d : A)
    → get_or (xs ++ ys) i d
      ≡ (if ltb i (length xs) then get_or xs i d else get_or ys (i - length xs) d)
get_or-append [] ys i d = ground arith
get_or-append (x ∷ xs) ys zero d = ground arith
get_or-append (x ∷ xs) ys (suc i) d = ground (arith, get_or-append xs ys i d)

get_or-none {ℓ} : {A : Type ℓ} (xs : List A) (i : ℕ) (d : A) → length xs ≤ i → get_or xs i d ≡ d
get_or-none [] i d h = refl
get_or-none (x ∷ xs) zero d h = absurd (omega arith)
get_or-none (x ∷ xs) (suc i) d h = get_or-none xs i d (omega arith)

get_or_one : (c i : ℕ) → get_or (c ∷ []) i 0 ≡ (if i == 0 then c else 0)
get_or_one c zero = refl
get_or_one c (suc i) = ground arith

module _ (n : ℕ) where
  pub written-nil : (pos : ℕ) (out : ℕ → ℕ) → written n [] pos out ≡ out
  unfolding written
  written-nil pos out = fun_ext (λ i. ground arith)

  pub written-append :
      (xs ys : List ℕ) (pos : ℕ) (out : ℕ → ℕ)
      → written n (xs ++ ys) pos out ≡ written n ys (pos + length xs) (written n xs pos out)
  unfolding written
  written-append xs ys pos out = fun_ext λ i.
      rw (length-append, get_or-append xs ys (i - pos) 0)
        (let e : i - pos - length xs ≡ i - (pos + length xs) = omega arith in rw e (ground arith))

  pub appended-nil : (p : Printer) → appended n [] p ≡ p
  unfolding appended
  appended-nil p =
      ap₂ (λ (o : ℕ → ℕ) (q : ℕ). record p { out = o; pos = q }) (written-nil p.pos p.out)
        (omega arith)

  pub appended-append :
      (xs ys : List ℕ) (p : Printer) → appended n (xs ++ ys) p ≡ appended n ys (appended n xs p)
  unfolding appended
  appended-append xs ys p =
      ap₂ (λ (o : ℕ → ℕ) (q : ℕ). record p { out = o; pos = q }) (written-append xs ys p.pos p.out)
        (omega (arith, length-append xs ys))

  pub put_at_get :
      (c pos : ℕ) (out : ℕ → ℕ) (i : ℕ)
      → put_at n c pos out i ≡ (if pos == i && ltb (pos + 1) n then c else out i)
  unfolding put_at
  put_at_get c pos out i = elim (Bool-cases (ltb (pos + 1) n)) [
    | inl e ↦ rw e (ground arith)
    | inr e ↦ rw e (ground arith)
  ]

  put_at_lem : (c pos : ℕ) (out : ℕ → ℕ) → put_at n c pos out ≡ written n (c ∷ []) pos out
  unfolding written
  put_at_lem c pos out = fun_ext λ i. rw (put_at_get, get_or_one) (ground arith)

  pub put_lem : (c : ℕ) (p : Printer) → put n c p ≡ appended n (c ∷ []) p
  unfolding put appended
  put_lem c p = ap (λ (o : ℕ → ℕ). record p { out = o; pos = p.pos + 1 }) (put_at_lem c p.pos p.out)

  pub hex_loop_lem :
      (i num : ℕ) (p : Printer) → hex_loop n i num p ≡ appended n (hexadecimal i num) p
  unfolding hex_loop hexadecimal
  hex_loop_lem zero num p = sym (appended-nil p)
  hex_loop_lem (suc i) num p =
      hex_loop_lem i num (put n _ p)
      ∙ ap (appended n (hexadecimal i num)) (put_lem _ p)
      ∙ sym (appended-append (_ ∷ []) (hexadecimal i num) p)

  length-decimal : (k num : ℕ) → length (decimal k num) ≡ k
  unfolding decimal
  length-decimal zero num = refl
  length-decimal (suc k) num =
      length-append (decimal k (num / 10)) _ ∙ omega (arith, length-decimal k (num / 10))

  written_last :
      (c pos : ℕ) (xs : List ℕ) (out : ℕ → ℕ)
      → written n xs pos (put_at n c (pos + length xs) out) ≡ written n (xs ++ c ∷ []) pos out
  unfolding written
  written_last c pos xs out =
      fun_ext λ i. rw (length-append, get_or-append, put_at_get, get_or_one) (ground arith)

  store_digits_lem :
      (k pos num : ℕ) (out : ℕ → ℕ)
      → store_digits n pos k num out ≡ written n (decimal k num) pos out
  unfolding store_digits decimal put_at
  store_digits_lem zero pos num out = sym (written-nil pos out)
  store_digits_lem (suc k) pos num out =
      store_digits_lem k pos (num / 10) (put_at n (b'0' + num % 10) (pos + k) out)
      ∙ ap
          (λ (j : ℕ).
            written n (decimal k (num / 10)) pos (put_at n (b'0' + num % 10) (pos + j) out))
          (sym (length-decimal k (num / 10)))
      ∙ written_last (b'0' + num % 10) pos (decimal k (num / 10)) out

  pub store_decimal_lem :
      (num : ℕ) (p : Printer) → store_decimal n num p ≡ appended n (unsigned_decimal num) p
  unfolding store_decimal unsigned_decimal appended
  store_decimal_lem num p =
      ap₂ (λ (o : ℕ → ℕ) (q : ℕ). record p { out = o; pos = q })
        (store_digits_lem (count_digits max_digits num) p.pos num p.out)
        (ap (λ (k : ℕ). p.pos + k) (sym (length-decimal (count_digits max_digits num) num)))

  -- A string is stored whole where it fits.
  string_loop-fits :
      (rounds : ℕ) (cs : List ℕ) (p : Printer)
      → n ≤ 2 ^ 64
      → length cs ≤ rounds
      → p.pos + length cs < n
      → string_loop n rounds cs p ≡ done (appended n cs p)
  unfolding string_loop
  string_loop-fits zero [] p size enough h = ap done (sym (appended-nil p))
  string_loop-fits zero (c ∷ cs) p size enough h = absurd (omega arith)
  string_loop-fits (suc rounds) [] p size enough h = ap done (sym (appended-nil p))
  string_loop-fits (suc rounds) (c ∷ cs) p size enough h =
      let next : u64 (p.pos + 1) ≡ p.pos + 1 = omega arith in
      let before : p.pos + 1 - 1 ≡ p.pos = omega arith in
      let room : ltb (p.pos + 1) n ≡ true = ground arith in
      let later : (p.pos + 1 == 0) ≡ false = ground arith in
      let same : record p { out = store p.out p.pos c; pos = p.pos + 1 } ≡ put n c p =
        unfold put put_at in rw room refl in
      rw (string_loop, next, room, later, before)
        (ap (λ (q : Printer). string_loop n rounds cs q) same
          ∙ string_loop-fits rounds cs (put n c p) size (omega arith) (unfold put in omega arith)
          ∙ ap (λ (q : Printer). done (appended n cs q)) (put_lem c p)
          ∙ ap done (sym (appended-append (c ∷ []) cs p)))

  pub put_string-fits :
      (cs : List ℕ) (p : Printer)
      → n ≤ 2 ^ 64
      → p.pos + length cs < n
      → put_string n cs p ≡ done (appended n cs p)
  unfolding put_string
  put_string-fits cs p size h = string_loop-fits (length cs + 2 ^ 64) cs p size (omega arith) h
