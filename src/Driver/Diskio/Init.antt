-- ===== src/Driver/Diskio/Init.antt =====
-- The initialization of a card that does not answer CMD8, in driver/diskio.c.
use lowrisc_kc.Base.{ℕ, suc, ◌≡◌, refl, ap, ◌∙◌, true, false, Bool, leb, ◌==◌, arith}
use lowrisc_kc.Driver.Diskio.Spi.{Bus}
use lowrisc_kc.Driver.Diskio.Packets.{send_cmd, acmd41}
use lowrisc_kc.Driver.Diskio.{leave_idle, answers, less_one, finish_old, init_old, ct_sd1}

nonzero : (n : ℕ) → (suc n == 0) ≡ false
nonzero n = ground arith

less_one-suc : (n : ℕ) → less_one (suc n) ≡ n
unfolding less_one
less_one-suc n = rw (nonzero n) (omega arith)

module _ {S : Type 0} (bus : Bus S) where
  leave_idle-ready :
      (cmd timeout : ℕ) (s : S)
      → (send_cmd bus cmd 0 s).1 ≡ 0
      → (leave_idle bus cmd 0 (suc timeout) s).1 ≡ timeout
  unfolding leave_idle
  leave_idle-ready cmd timeout s ready = rw (leave_idle, ready) refl

  finish_old-ready :
      (ty cmd timeout : ℕ) (s : S)
      → (send_cmd bus cmd 0 s).1 ≡ 0
      → (finish_old bus ty cmd (suc (suc timeout)) s).1 ≡ 0
  unfolding finish_old
  finish_old-ready ty cmd timeout s ready =
      let left : ((leave_idle bus cmd 0 (suc (suc timeout)) s).1 == 0) ≡ false =
        rw (leave_idle-ready cmd (suc timeout) s ready) (nonzero timeout) in
      rw (finish_old, left) refl

  answers-suc :
      (test : ℕ → Bool) (cmd arg timeout : ℕ) (s : S)
      → answers bus test cmd arg (suc timeout) s
        ≡ ((send_cmd bus cmd arg s).0, test ((send_cmd bus cmd arg s).1))
  unfolding answers
  answers-suc test cmd arg timeout s = rw (answers, nonzero timeout) refl

  -- An SDv1 card that answers the first ACMD41 and the one after it with 0, so that it is ready at
  -- once, is given no type when the timeout is above 2: the initialization fails.
  pub init_old-ready :
      (timeout : ℕ) (s : S)
      → (send_cmd bus acmd41 0 s).1 ≡ 0
      → (send_cmd bus acmd41 0 ((send_cmd bus acmd41 0 s).0)).1 ≡ 0
      → (init_old bus (suc (suc (suc timeout))) s).1 ≡ 0
  unfolding init_old
  init_old-ready timeout s ready again =
      let sd1 = send_cmd bus acmd41 0 s in
      let first : answers bus (λ res. leb res 1) acmd41 0 (suc (suc (suc timeout))) s
          ≡ (sd1.0, true) =
        answers-suc (λ res. leb res 1) acmd41 0 (suc (suc timeout)) s
        ∙ ap (λ (res : ℕ). (sd1.0, leb res 1)) ready in
      rw (init_old, first, less_one-suc (suc (suc timeout)))
        (finish_old-ready ct_sd1 acmd41 timeout (sd1.0) again)
