-- ===== src/Driver/Device.antt =====
-- Devices that driver/spi.c and driver/uart.c reach through registers, named by their word offset.
use lowrisc_kc.Base.{ℕ, zero, suc, Bool, Option, none, some}

-- A read changes the device too: it takes a byte out of a FIFO.
pub record Device (D : Type 0) : Type 0 where
  pub read : ℕ → D → D × ℕ
  pub write : ℕ → ℕ → D → D

module _ {D : Type 0} (dev : Device D) where
  -- `while (! test(*(base + reg)));`: `none` means that the rounds are used up.
  unfoldable pub wait : ℕ → ℕ → (ℕ → Bool) → D → Option D
  wait zero reg test d = none
  wait (suc rounds) reg test d =
      let r = dev.read reg d in
      let rest = wait rounds reg test (r.0) in
      elim (test (r.1)) [ Bool.true ↦ some (r.0) | Bool.false ↦ rest ]
