-- ===== src/Driver/Spi/Fifo.antt =====
-- What driver/spi.c relies on of its controller: bytes that are written to the transmit FIFO are
-- shifted out in their order, and each byte that comes back goes to the receive FIFO.
use lowrisc_kc.Base.{ℕ, ◌<◌, ◌≡◌, some, List, [], ◌∷◌, ◌++◌, length}
use lowrisc_kc.Driver.Device.{Device}
use lowrisc_kc.Driver.Spi.{spi_dtr, spi_drr, spi_cr, wait_sent}

-- The slave answers each byte with a byte.
module _ {S : Type 0} (swap : ℕ → S → S × ℕ) where
  abbrev pub replies : List ℕ → S → List ℕ
  replies [] s = []
  replies (b ∷ bs) s = (swap b s).1 ∷ replies bs ((swap b s).0)

  abbrev pub swapped : List ℕ → S → S
  swapped [] s = s
  swapped (b ∷ bs) s = swapped bs ((swap b s).0)

-- A controller with FIFOs of 16 bytes: `queue` has the bytes that were written and not yet waited
-- for, `received` those to be read. Within the rounds the transmit FIFO is found empty.
pub record IsFifo {D S : Type 0} (dev : Device D) (rounds : ℕ) (swap : ℕ → S → S × ℕ)
    (slave : D → S) (queue received : D → List ℕ) : Type 0 where
  pub queue-write :
      (v : ℕ) (d : D) → length (queue d) < 16 → queue (dev.write spi_dtr v d) ≡ queue d ++ v ∷ []
  pub received-write : (v : ℕ) (d : D) → received (dev.write spi_dtr v d) ≡ received d
  pub slave-write : (v : ℕ) (d : D) → slave (dev.write spi_dtr v d) ≡ slave d
  pub sent :
      (d : D)
      → received d ≡ []
      → (e : D) × (wait_sent dev rounds d ≡ some e)
        × (queue e ≡ [])
        × (received e ≡ replies swap (queue d) (slave d))
        × (slave e ≡ swapped swap (queue d) (slave d))
  pub read_first :
      (d : D) (b : ℕ) (bs : List ℕ)
      → received d ≡ b ∷ bs
      → ((dev.read spi_drr d).1 ≡ b)
        × (received ((dev.read spi_drr d).0) ≡ bs)
        × (queue ((dev.read spi_drr d).0) ≡ queue d)
        × (slave ((dev.read spi_drr d).0) ≡ slave d)
  pub reset :
      (d : D)
      → (received (dev.write spi_cr 0xc6 d) ≡ [])
        × (queue (dev.write spi_cr 0xc6 d) ≡ queue d)
        × (slave (dev.write spi_cr 0xc6 d) ≡ slave d)
