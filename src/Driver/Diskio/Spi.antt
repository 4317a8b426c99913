-- ===== src/Driver/Diskio/Spi.antt =====
-- The bus to the card as driver/diskio.c uses it, and its routines for single bytes, blocks and
-- the card's ready state.
use lowrisc_kc.Base.{
  ℕ, zero, suc, ◌+◌, ◌-◌, ◌*◌, ◌/◌, ◌^◌, Bool, true, false, List, [], ◌∷◌, ◌++◌, take, drop,
  if◌then◌else◌, ltb, leb, ◌==◌, u8, u32,
}

-- The functions of driver/spi.h, on a state of the bus and the card: `spi_send` has the byte that
-- comes back, `spi_recv_multi` the bytes that it stores.
pub record Bus (S : Type 0) : Type 0 where
  pub spi_init : S → S
  pub spi_disable : S → S
  pub spi_send : ℕ → S → S × ℕ
  pub spi_send_multi : List ℕ → S → S
  pub spi_recv_multi : ℕ → S → S × List ℕ
  pub spi_select_slave : S → S
  pub spi_deselect_slave : S → S

-- A timeout of 0 wraps around before it is tested.
unfoldable pub rounds_after_first : ℕ → ℕ
rounds_after_first timeout = if timeout == 0 then 2 ^ 32 - 1 else timeout - 1

-- The size of a transfer at `i`.
unfoldable pub chunk : ℕ → ℕ → ℕ
chunk cnt i = if leb (i + 16) cnt then 16 else cnt - i

module _ {S : Type 0} (bus : Bus S) where
  unfoldable pub xchg_spi : ℕ → S → S × ℕ
  xchg_spi dat s = let r = bus.spi_send dat s in (r.0, u8 (r.1))

  -- Bytes sent one after another, what comes back dropped.
  unfoldable pub send_bytes : List ℕ → S → S
  unfolding xchg_spi
  send_bytes [] s = s
  send_bytes (dat ∷ rest) s = send_bytes rest ((xchg_spi dat s).0)

  -- `n` bytes received one after another.
  unfoldable pub recv_bytes : ℕ → S → S × List ℕ
  unfolding xchg_spi
  recv_bytes zero s = (s, [])
  recv_bytes (suc n) s =
      let r = xchg_spi 0xff s in let rest = recv_bytes n (r.0) in (rest.0, r.1 ∷ rest.1)

  -- The loops over `i`, from `i = 0` by 16 while `i < cnt`, on the number of rounds that are left.
  unfoldable pub xmit_loop : ℕ → ℕ → ℕ → List ℕ → S → S
  unfolding chunk
  xmit_loop zero cnt i p s = s
  xmit_loop (suc rounds) cnt i p s = elim (ltb i cnt) [
    | true ↦ xmit_loop rounds cnt (i + 16) p (bus.spi_send_multi (take (chunk cnt i) (drop i p)) s)
    | false ↦ s
  ]

  unfoldable pub xmit_spi_multi : List ℕ → ℕ → S → S
  unfolding xmit_loop
  xmit_spi_multi p cnt s = xmit_loop ((cnt + 15) / 16) cnt 0 p s

  unfoldable pub rcvr_loop : ℕ → ℕ → ℕ → S → S × List ℕ
  unfolding chunk
  rcvr_loop zero cnt i s = (s, [])
  rcvr_loop (suc rounds) cnt i s = elim (ltb i cnt) [
    | true ↦
        let r = bus.spi_recv_multi (chunk cnt i) s in
        let rest = rcvr_loop rounds cnt (i + 16) (r.0) in (rest.0, r.1 ++ rest.1)
    | false ↦ (s, [])
  ]

  unfoldable pub rcvr_spi_multi : ℕ → S → S × List ℕ
  unfolding rcvr_loop
  rcvr_spi_multi cnt s = rcvr_loop ((cnt + 15) / 16) cnt 0 s

  -- `do { d = xchg_spi(0xFF); timeout--; } while (... && timeout);` with `again` rounds left after
  -- this one: the last byte that came back.
  unfoldable pub poll : (ℕ → Bool) → ℕ → S → S × ℕ
  unfolding xchg_spi
  poll stop zero s = xchg_spi 0xff s
  poll stop (suc again) s =
      let r = xchg_spi 0xff s in elim (stop (r.1)) [ true ↦ r | false ↦ poll stop again (r.0) ]

  unfoldable pub wait_ready : ℕ → S → S × Bool
  unfolding poll rounds_after_first
  wait_ready wt s =
      let r = poll (λ d. d == 0xff) (rounds_after_first (u32 (wt * 5000))) s in (r.0, r.1 == 0xff)

  unfoldable pub deselect : S → S
  deselect s = bus.spi_deselect_slave s

  unfoldable pub select : S → S × Bool
  unfolding wait_ready deselect
  select s =
      let r = wait_ready 500 (bus.spi_select_slave s) in
      if r.1 then (r.0, true) else (deselect (r.0), false)
