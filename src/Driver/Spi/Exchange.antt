-- ===== src/Driver/Spi/Exchange.antt =====
-- driver/spi.c exchanges bytes with the slave, each in its turn.
use lowrisc_kc.Base.{
  ℕ, suc, ◌+◌, ◌≤◌, ◌≡◌, refl, sym, ap, ◌∙◌, some, List, [], ◌∷◌, ◌++◌, length, length-append,
  replicate, length-replicate, u8, arith,
}
use lowrisc_kc.Driver.Device.{Device}
use lowrisc_kc.Driver.Spi.{
  spi_dtr, spi_drr, spi_cr, wait_sent, write_all, read_all, spi_send, spi_send_multi,
  spi_recv_multi, spi_bus,
}
use lowrisc_kc.Driver.Spi.Fifo.{replies, swapped, IsFifo}
use mathlib.Core.List.{map, append-nil, append_assoc}

module _ {D S : Type 0} (dev : Device D) (rounds : ℕ) (swap : ℕ → S → S × ℕ) (slave : D → S)
    (queue received : D → List ℕ) (fifo : IsFifo dev rounds swap slave queue received) where
  -- Nothing waits in the FIFOs, and the slave is in the state `s`.
  abbrev pub Idle : S → D → Type 0
  Idle s d = (queue d ≡ []) × (received d ≡ []) × (slave d ≡ s)

  write_all_lem :
      (p : List ℕ) (d : D)
      → length (queue d) + length p ≤ 16
      → (queue (write_all dev rounds p d) ≡ queue d ++ p)
        × (received (write_all dev rounds p d) ≡ received d)
        × (slave (write_all dev rounds p d) ≡ slave d)
  unfolding write_all
  write_all_lem [] d h = (sym (append-nil (queue d)), refl, refl)
  write_all_lem (b ∷ p) d h =
      let e : queue (dev.write spi_dtr b d) ≡ queue d ++ b ∷ [] =
        fifo.queue-write b d (omega arith) in
      let size : length (queue (dev.write spi_dtr b d)) ≡ length (queue d) + 1 =
        ap length e ∙ length-append (queue d) (b ∷ []) in
      let (q, r, s) = write_all_lem p (dev.write spi_dtr b d) (omega (arith, size)) in
      (
        q ∙ ap (λ (l : List ℕ). l ++ p) e ∙ append_assoc (queue d) (b ∷ []) p,
        r ∙ fifo.received-write b d,
        s ∙ fifo.slave-write b d,
      )

  read_all_lem :
      (bs : List ℕ) (d : D)
      → received d ≡ bs
      → ((read_all dev rounds (length bs) d).1 ≡ map u8 bs)
        × (received ((read_all dev rounds (length bs) d).0) ≡ [])
        × (queue ((read_all dev rounds (length bs) d).0) ≡ queue d)
        × (slave ((read_all dev rounds (length bs) d).0) ≡ slave d)
  unfolding read_all
  read_all_lem [] d h = (refl, h, refl, refl)
  read_all_lem (b ∷ bs) d h =
      let (x, r, q, s) = fifo.read_first d b bs h in
      let (xs, r', q', s') = read_all_lem bs ((dev.read spi_drr d).0) r in
      (rw (x, xs) refl, r', q' ∙ q, s' ∙ s)

  length-replies : (p : List ℕ) (s : S) → length (replies swap p s) ≡ length p
  length-replies [] s = refl
  length-replies (b ∷ p) s = ap suc (length-replies p ((swap b s).0))

  -- The bytes are written and waited for.
  transfer :
      (p : List ℕ) (s : S) (d : D)
      → Idle s d
      → length p ≤ 16
      → (e : D) × (wait_sent dev rounds (write_all dev rounds p d) ≡ some e)
        × (queue e ≡ [])
        × (received e ≡ replies swap p s)
        × (slave e ≡ swapped swap p s)
  transfer p s d (idle, none, at) h =
      let size : length (queue d) ≡ 0 = ap length idle in
      let (q, r, k) = write_all_lem p d (omega (arith, size)) in
      let (e, w, q', r', k') = fifo.sent (write_all dev rounds p d) (r ∙ none) in
      let whole : queue (write_all dev rounds p d) ≡ p = q ∙ ap (λ (l : List ℕ). l ++ p) idle in
      (e, w, q', r' ∙ rw (whole, k, at) refl, k' ∙ rw (whole, k, at) refl)

  send_one :
      (dat : ℕ) (s : S) (d : D)
      → Idle s d
      → (e : D) × (spi_send dev rounds dat d ≡ some (e, u8 ((swap dat s).1)))
        × Idle ((swap dat s).0) e
  unfolding spi_send write_all
  send_one dat s d idle =
      let (e, w, q, r, k) = transfer (dat ∷ []) s d idle (omega arith) in
      let (x, r', q', k') = fifo.read_first e ((swap dat s).1) [] r in
      (
        (dev.read spi_drr e).0,
        rw w (ap (λ (b : ℕ). some ((dev.read spi_drr e).0, u8 b)) x),
        (q' ∙ q, r', k' ∙ k),
      )

  send_many :
      (p : List ℕ) (s : S) (d : D)
      → Idle s d
      → length p ≤ 16
      → (e : D) × (spi_send_multi dev rounds p d ≡ some e) × Idle (swapped swap p s) e
  unfolding spi_send_multi
  send_many p s d idle h =
      let (e, w, q, r, k) = transfer p s d idle h in
      let (r', q', k') = fifo.reset e in (dev.write spi_cr 0xc6 e, rw w refl, (q' ∙ q, r', k' ∙ k))

  recv_many :
      (n : ℕ) (s : S) (d : D)
      → Idle s d
      → n ≤ 16
      → (e : D) × (spi_recv_multi dev rounds n d
          ≡ some (e, map u8 (replies swap (replicate n 0xff) s)))
        × Idle (swapped swap (replicate n 0xff) s) e
  unfolding spi_recv_multi
  recv_many n s d idle h =
      let p = replicate n 0xff in
      let size : length p ≡ n = length-replicate n 0xff in
      let (e, w, q, r, k) = transfer p s d idle (omega (arith, size)) in
      let (x, r', q', k') = read_all_lem (replies swap p s) e r in
      let back : length (replies swap p s) ≡ n = length-replies p s ∙ size in
      let f = λ (m : ℕ). (read_all dev rounds m e).0 in
      (
        f (length (replies swap p s)),
        rw w (
            ap (λ (m : ℕ). some (read_all dev rounds m e)) (sym back)
            ∙ ap (λ (l : List ℕ). some (f (length (replies swap p s)), l)) x),
        (q' ∙ q, r', k' ∙ k),
      )

  -- On a controller whose FIFOs are empty, spi_send returns the byte that the slave answers,
  -- spi_send_multi sends up to 16 bytes in their order and drops the answers, and spi_recv_multi
  -- stores the answers to as many bytes 0xff as it is asked for, up to 16. Each of them ends, with
  -- the FIFOs empty again.
  pub spi_bus-exchanges :
      (s : S) (d : D) (dat : ℕ) (p : List ℕ) (n : ℕ)
      → Idle s d
      → length p ≤ 16
      → n ≤ 16
      → ((e : D) × ((spi_bus dev rounds).spi_send dat (some d) ≡ (some e, u8 ((swap dat s).1)))
          × Idle ((swap dat s).0) e)
        × ((e : D) × ((spi_bus dev rounds).spi_send_multi p (some d) ≡ some e)
            × Idle (swapped swap p s) e)
        × ((e : D) × ((spi_bus dev rounds).spi_recv_multi n (some d)
              ≡ (some e, map u8 (replies swap (replicate n 0xff) s)))
            × Idle (swapped swap (replicate n 0xff) s) e)
  unfolding spi_bus
  spi_bus-exchanges s d dat p n idle few small =
      let (e, w, i) = send_one dat s d idle in
      let (e', w', i') = recv_many n s d idle small in
      ((e, rw w refl, i), send_many p s d idle few, (e', rw w' refl, i'))
