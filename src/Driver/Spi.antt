-- ===== src/Driver/Spi.antt =====
-- driver/spi.c over the registers of the SPI controller. The loops that poll its status have no
-- bound in the source: they run for at most `rounds` reads here.
pub mod Fifo
pub mod Exchange
mod Tests
use lowrisc_kc.Base.{
  ℕ, zero, suc, ◌^◌, ◌/◌, ◌%◌, Bool, not, ◌==◌, Option, none, some, List, [], ◌∷◌, replicate, u8,
  bit_and,
}
use lowrisc_kc.Driver.Device.{Device, wait}
use lowrisc_kc.Driver.Diskio.Spi.{Bus}
use mathlib.Core.Option

abbrev pub spi_gier : ℕ
spi_gier = 0x07

abbrev pub spi_srr : ℕ
spi_srr = 0x10

abbrev pub spi_cr : ℕ
spi_cr = 0x18

abbrev pub spi_sr : ℕ
spi_sr = 0x19

abbrev pub spi_dtr : ℕ
spi_dtr = 0x1a

abbrev pub spi_drr : ℕ
spi_drr = 0x1b

abbrev pub spi_ssr : ℕ
spi_ssr = 0x1c

-- `GetBit(*(spi_base_ptr + SPI_SR), 2)`: the transmit FIFO is empty.
unfoldable pub sent_all : ℕ → Bool
sent_all status = not (bit_and status 4 / 4 == 0)

module _ {D : Type 0} (dev : Device D) (rounds : ℕ) where
  unfoldable pub spi_init : D → D
  spi_init d =
      dev.write spi_cr 0x86 (dev.write spi_gier 0 (dev.write spi_cr 0xe4 (dev.write spi_srr 0xa d)))

  unfoldable pub spi_disable : D → D
  spi_disable d = dev.write spi_cr 0xe4 d

  unfoldable pub wait_sent : D → Option D
  unfolding wait sent_all
  wait_sent d = wait dev rounds spi_sr sent_all d

  unfoldable pub spi_send : ℕ → D → Option (D × ℕ)
  spi_send dat d =
      Option.map (λ e. let r = dev.read spi_drr e in (r.0, u8 (r.1)))
        (wait_sent (dev.write spi_dtr dat d))

  -- The loops over the bytes.
  unfoldable pub write_all : List ℕ → D → D
  write_all [] d = d
  write_all (dat ∷ rest) d = write_all rest (dev.write spi_dtr dat d)

  unfoldable pub read_all : ℕ → D → D × List ℕ
  read_all zero d = (d, [])
  read_all (suc n) d =
      let r = dev.read spi_drr d in let rest = read_all n (r.0) in (rest.0, u8 (r.1) ∷ rest.1)

  unfoldable pub spi_send_multi : List ℕ → D → Option D
  unfolding write_all
  spi_send_multi dat d = Option.map (λ e. dev.write spi_cr 0xc6 e) (wait_sent (write_all dat d))

  unfoldable pub spi_recv_multi : ℕ → D → Option (D × List ℕ)
  unfolding write_all read_all
  spi_recv_multi n d = Option.map (λ e. read_all n e) (wait_sent (write_all (replicate n 0xff) d))

  unfoldable pub spi_select_slave : D → D
  spi_select_slave d = dev.write spi_ssr 0xfffffffe d

  unfoldable pub spi_deselect_slave : D → D
  spi_deselect_slave d = dev.write spi_ssr 0xffffffff d

-- The result of a call, or the loop that does not end: `otherwise` is never seen.
abbrev pub state_of : {D A : Type 0} → Option (D × A) → Option D
state_of none = none
state_of (some (d, a)) = some d

abbrev pub result_or : {D A : Type 0} → A → Option (D × A) → A
result_or otherwise none = otherwise
result_or otherwise (some (d, a)) = a

abbrev pub after : {A B : Type 0} → Option A → (A → Option B) → Option B
after none f = none
after (some a) f = f a

-- The bus of driver/diskio.c. Its state is `none` once a loop does not end.
unfoldable pub spi_bus : {D : Type 0} → Device D → ℕ → Bus (Option D)
spi_bus dev rounds = record {
  spi_init = Option.map (spi_init dev rounds);
  spi_disable = Option.map (spi_disable dev rounds);
  spi_send = λ dat s. let r = after s (spi_send dev rounds dat) in (state_of r, result_or 0xff r);
  spi_send_multi = λ dat s. after s (spi_send_multi dev rounds dat);
  spi_recv_multi =
      λ n s. let r = after s (spi_recv_multi dev rounds n) in (state_of r, result_or [] r);
  spi_select_slave = Option.map (spi_select_slave dev rounds);
  spi_deselect_slave = Option.map (spi_deselect_slave dev rounds);
}
