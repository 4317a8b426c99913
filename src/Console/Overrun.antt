-- ===== src/Console/Overrun.antt =====
-- Where a string does not fit into the buffer of `vsnprintf`.
use lowrisc_kc.Base.{
  ℕ, zero, suc, ◌+◌, ◌-◌, ◌^◌, ◌<◌, ◌≤◌, ◌≡◌, ◌↔◌, refl, sym, ap, ◌∙◌, ltb→lt, true, false,
  Bool-cases, inl, inr, List, [], ◌∷◌, length, ltb, ◌==◌, arith, u64,
}
use lowrisc_kc.Base.Outcome.{store}
use lowrisc_kc.Console.{Printer, done, undefined, finished, put_string, string_loop, directive}
use lowrisc_kc.Console.Buffer.{put_string-fits}

done-ne-undefined : {q : Printer} → done q ≡ undefined → ⊥
done-ne-undefined e = cc

module _ (n : ℕ) (some_room : 0 < n) (limit : n ≤ 2 ^ 64) where
  -- Without room for a character `pos` counts up to 2^64, wraps around, and finds room.
  string_loop-stuck :
      (rounds left c : ℕ) (cs : List ℕ) (p : Printer)
      → p.pos + suc left ≡ 2 ^ 64
      → n ≤ p.pos + 1
      → left < rounds
      → string_loop n rounds (c ∷ cs) p ≡ undefined
  unfolding string_loop
  string_loop-stuck zero left c cs p at full enough = absurd (omega arith)
  string_loop-stuck (suc rounds) zero c cs p at full enough =
      let wrapped : u64 (p.pos + 1) ≡ 0 = omega arith in
      let room : ltb 0 n ≡ true = ground arith in rw (string_loop, wrapped, room) refl
  string_loop-stuck (suc rounds) (suc left) c cs p at full enough =
      let next : u64 (p.pos + 1) ≡ p.pos + 1 = omega arith in
      let none_left : ltb (p.pos + 1) n ≡ false = ground arith in
      rw (string_loop, next, none_left)
        (string_loop-stuck rounds left c cs (record p { pos = p.pos + 1 }) (omega arith)
          (omega arith) (omega arith))

  string_loop-overruns :
      (rounds : ℕ) (cs : List ℕ) (p : Printer)
      → p.pos < 2 ^ 64
      → 0 < length cs
      → n ≤ p.pos + length cs
      → length cs + 2 ^ 64 ≤ rounds
      → string_loop n rounds cs p ≡ undefined
  unfolding string_loop
  string_loop-overruns rounds [] p small some_left long enough = absurd (omega arith)
  string_loop-overruns zero (c ∷ cs) p small some_left long enough = absurd (omega arith)
  string_loop-overruns (suc rounds) (c ∷ cs) p small some_left long enough =
      elim (Bool-cases (ltb (p.pos + 1) n)) [
        | inr full ↦
            string_loop-stuck (suc rounds) (2 ^ 64 - 1 - p.pos) c cs p (omega arith) (ground arith)
              (omega arith)
        | inl room ↦
            let below : p.pos + 1 < n = ground arith in
            let next : u64 (p.pos + 1) ≡ p.pos + 1 = omega arith in
            let later : (p.pos + 1 == 0) ≡ false = ground arith in
            rw (string_loop, next, room, later)
              (string_loop-overruns rounds cs
                (record p { out = store p.out (p.pos + 1 - 1) c; pos = p.pos + 1 }) (omega arith)
                (omega arith) (omega arith) (omega arith))
      ]

  put_string-undefined :
      (cs : List ℕ) (p : Printer)
      → p.pos < 2 ^ 64
      → (finished (put_string n cs p) ≡ undefined) ↔ ((0 < length cs) × (n ≤ p.pos + length cs))
  unfolding put_string finished
  put_string-undefined [] p small =
      (λ e. absurd (done-ne-undefined e), λ h. absurd (omega (arith, h.0)))
  put_string-undefined (c ∷ cs) p small = (
    λ e. elim (Bool-cases (ltb (p.pos + length (c ∷ cs)) n)) [
      | inl fits ↦ absurd (
          done-ne-undefined (
            sym (
              ap finished
                (put_string-fits n (c ∷ cs) p limit (ltb→lt (p.pos + length (c ∷ cs)) n fits)))
            ∙ e))
      | inr long ↦ (omega arith, ground arith)
    ],
    λ h. ap finished (
        string_loop-overruns (length (c ∷ cs) + 2 ^ 64) (c ∷ cs) p small (h.0) (h.1) (omega arith)),
  )

-- %s of a string that is not empty and does not fit goes on, in a buffer with a size of 1 to 2^64,
-- until `pos` has wrapped around, and then stores before the buffer; it does so for no other string.
pub directive_string-undefined :
    (text : ℕ → List ℕ) (vl : ℕ → ℕ) (n : ℕ) (p : Printer)
    → 0 < n
    → n ≤ 2 ^ 64
    → p.pos < 2 ^ 64
    → (directive text vl n b's' p ≡ undefined)
      ↔ ((0 < length (text (vl p.arg))) × (n ≤ p.pos + length (text (vl p.arg))))
unfolding directive
directive_string-undefined text vl n p some_room limit small =
    put_string-undefined n some_room limit (text (vl p.arg)) (record p { arg = p.arg + 1 }) small
