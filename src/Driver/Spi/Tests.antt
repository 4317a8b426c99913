-- ===== src/Driver/Spi/Tests.antt =====
-- A controller that shifts its bytes out when its status is read, and a slave that counts.
use lowrisc_kc.Base.{ℕ, ◌+◌, ◌≡◌, refl, ap, some, List, [], ◌∷◌, ◌++◌, ◌==◌, if◌then◌else◌, arith}
use lowrisc_kc.Driver.Device.{Device}
use lowrisc_kc.Driver.Spi.{spi_dtr, spi_drr, spi_sr, spi_cr, spi_bus, wait_sent}
use lowrisc_kc.Driver.Spi.Fifo.{replies, swapped, IsFifo}
use lowrisc_kc.Driver.Spi.Exchange.{Idle, spi_bus-exchanges}

record Chip : Type 0 where
  queue : List ℕ
  received : List ℕ
  count : ℕ

abbrev counted : ℕ → ℕ → ℕ × ℕ
counted b s = (s + 1, s + b)

abbrev tail : List ℕ → List ℕ
tail [] = []
tail (b ∷ bs) = bs

abbrev head : List ℕ → ℕ
head [] = 0
head (b ∷ bs) = b

abbrev shift : Chip → Chip
shift c = record {
  queue = [];
  received = c.received ++ replies counted c.queue c.count;
  count = swapped counted c.queue c.count;
}

abbrev chip : Device Chip
chip = record {
  read = λ reg c.
      if reg == spi_drr
      then (record c { received = tail c.received }, head c.received)
      else if reg == spi_sr
      then (shift c, 4)
      else (c, 0);
  write = λ reg v c.
      if reg == spi_dtr
      then record c { queue = c.queue ++ v ∷ [] }
      else if reg == spi_cr
      then record c { received = [] }
      else c;
}

chip-IsFifo : IsFifo chip 1 counted (λ c. c.count) (λ c. c.queue) (λ c. c.received)
unfolding wait_sent
chip-IsFifo = record {
  queue-write = λ v c h. refl;
  received-write = λ v c. refl;
  slave-write = λ v c. refl;
  sent = λ c h.
      (shift c, refl, refl, ap (λ (l : List ℕ). l ++ replies counted c.queue c.count) h, refl);
  read_first = λ c b bs h. (ap head h, ap tail h, refl, refl);
  reset = λ c. (refl, refl, refl);
}

abbrev fresh : Chip
fresh = record { queue = []; received = []; count = 5 }

spi_bus-exchanges_example :
    ((e : Chip) × ((spi_bus chip 1).spi_send 7 (some fresh) ≡ (some e, 12))
      × Idle chip 1 counted (λ c. c.count) (λ c. c.queue) (λ c. c.received) chip-IsFifo 6 e)
    × ((e : Chip) × ((spi_bus chip 1).spi_send_multi (1 ∷ 2 ∷ []) (some fresh) ≡ some e)
        × Idle chip 1 counted (λ c. c.count) (λ c. c.queue) (λ c. c.received) chip-IsFifo 7 e)
    × ((e : Chip) × ((spi_bus chip 1).spi_recv_multi 3 (some fresh) ≡ (some e, 4 ∷ 5 ∷ 6 ∷ []))
        × Idle chip 1 counted (λ c. c.count) (λ c. c.queue) (λ c. c.received) chip-IsFifo 8 e)
spi_bus-exchanges_example =
    spi_bus-exchanges chip 1 counted (λ c. c.count) (λ c. c.queue) (λ c. c.received) chip-IsFifo 5
      fresh 7 (1 ∷ 2 ∷ []) 3 (refl, refl, refl) (omega arith) (omega arith)
