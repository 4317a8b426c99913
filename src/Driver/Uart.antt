-- ===== src/Driver/Uart.antt =====
-- driver/uart.c over the registers of the UART. The loops that poll its status have no bound in
-- the source: they run for at most `rounds` reads here. A string is the list of its bytes before
-- the zero, and a buffer that of the bytes that are sent.
pub mod Sending
use lowrisc_kc.Base.{
  ℕ, ◌*◌, ◌/◌, ◌%◌, ◌^◌, Bool, not, ◌==◌, Option, none, some, List, [], ◌∷◌, bit_and, u8,
}
use lowrisc_kc.Driver.Device.{Device, wait}
use mathlib.Core.Option

abbrev pub uart_thr : ℕ
uart_thr = 0x0

abbrev pub uart_rbr : ℕ
uart_rbr = 0x0

abbrev pub uart_ier : ℕ
uart_ier = 0x1

abbrev pub uart_lcr : ℕ
uart_lcr = 0x3

abbrev pub uart_lsr : ℕ
uart_lsr = 0x5

abbrev pub uart_dll : ℕ
uart_dll = 0x0

abbrev pub uart_dlm : ℕ
uart_dlm = 0x1

-- 50*1000*1000u / (16u * 115200u)
abbrev pub divisor : ℕ
divisor = 50 * 1000 * 1000 / (16 * 115200)

unfoldable pub all_sent : ℕ → Bool
all_sent status = not (bit_and status 0x40 == 0)

unfoldable pub has_received : ℕ → Bool
has_received status = not (bit_and status 0x01 == 0)

module _ {D : Type 0} (dev : Device D) where
  unfoldable pub uart_init : D → D
  uart_init d = dev.write uart_ier 0x1 (
      dev.write uart_lcr 0xb (
        dev.write uart_dlm (divisor / 2 ^ 8)
          (dev.write uart_dll (divisor % 0x100) (dev.write uart_lcr 0x80 d))))

  unfoldable pub uart_read_irq : D → D × ℕ
  uart_read_irq d = let r = dev.read uart_rbr d in (r.0, u8 (r.1))

  unfoldable pub uart_check_read_irq : D → D × ℕ
  uart_check_read_irq d = let r = dev.read uart_lsr d in (r.0, bit_and (r.1) 0x01)

  unfoldable pub uart_enable_read_irq : D → D
  uart_enable_read_irq d = dev.write uart_ier 0x1 d

  unfoldable pub uart_disable_read_irq : D → D
  uart_disable_read_irq d = dev.write uart_ier 0x0 d

module _ {D : Type 0} (dev : Device D) (rounds : ℕ) where
  unfoldable pub uart_send : ℕ → D → Option D
  uart_send byte d = Option.map (dev.write uart_thr byte) (wait dev rounds uart_lsr all_sent d)

  -- uart_send_string and uart_send_buf: the bytes that are left.
  unfoldable pub uart_send_buf : List ℕ → D → Option D
  unfolding uart_send
  uart_send_buf [] d = some d
  uart_send_buf (byte ∷ buf) d = elim (uart_send byte d) [
    | none ↦ none
    | some e ↦ uart_send_buf buf e
  ]

  unfoldable pub uart_recv : D → Option (D × ℕ)
  unfolding uart_read_irq
  uart_recv d = Option.map (uart_read_irq dev) (wait dev rounds uart_lsr has_received d)
