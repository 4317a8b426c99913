-- ===== src/Driver/Diskio/Tests.antt =====
-- A card, and the disk driver's theorems on it.
use lowrisc_kc.Driver.Diskio.Control.{sector_count}
use lowrisc_kc.Driver.Diskio.Capacity.{bits, sector_count_lem}
use lowrisc_kc.Base.{
  zero, suc, ◌<◌, ◌*◌, List, [], ◌∷◌, get_or, arith, ℕ, ◌*◌, ◌≡◌, refl, replicate, if◌then◌else◌,
  ltb, ◌==◌, ◌&&◌,
}
use lowrisc_kc.Base.{◌++◌, Option, some}
use lowrisc_kc.Driver.Device.{Device}
use lowrisc_kc.Driver.Spi.{
  spi_bus, spi_drr, spi_dtr, spi_cr, spi_send, spi_send_multi, spi_recv_multi, wait_sent, write_all,
  read_all, spi_select_slave, spi_deselect_slave,
}
use lowrisc_kc.Driver.Diskio.Spi.{Bus}
use lowrisc_kc.Driver.Diskio.Packets.{send_cmd, acmd41}
use lowrisc_kc.Driver.Diskio.{Disk, disk_read, res_ok, init_old}
use lowrisc_kc.Driver.Diskio.Init.{init_old-ready}

-- 0 until a command starts, then 1 until its response is sent, 2 until the data token is sent.
abbrev next : ℕ → ℕ → ℕ
next dat s =
    if ltb dat 0x80 && s == 0
    then 1
    else if dat == 0xff && s == 1
    then 2
    else if dat == 0xff && s == 2
    then 3
    else s

abbrev tail : List ℕ → List ℕ
tail [] = []
tail (b ∷ bs) = bs

abbrev head : List ℕ → ℕ
head [] = 0
head (b ∷ bs) = b

abbrev reply : ℕ → ℕ
reply s = if s == 1 then 0 else if s == 2 then 0xfe else 0xff

-- Every response is 0, and every byte of data is 7.
abbrev card : Bus ℕ
card = record {
  spi_init = λ s. s;
  spi_disable = λ s. s;
  spi_send = λ dat s. (next dat s, reply s);
  spi_send_multi = λ p s. s;
  spi_recv_multi = λ n s. (s, replicate n 7);
  spi_select_slave = λ s. 0;
  spi_deselect_slave = λ s. s;
}

abbrev disk : Disk ℕ
disk = record { link = 0; stat = 0; card_type = 2 }

one_sector : (disk_read card 0 5 1 disk).1 ≡ res_ok
unfolding disk_read
one_sector = refl

-- A card that answers the first 0xff after the bytes of a command with 0, behind a controller that
-- shifts a byte out as soon as it is written; the state is what was received and that of the card.
abbrev controller : Device (List ℕ × ℕ)
controller = record {
  read = λ reg d. if reg == spi_drr then ((tail (d.0), d.1), head (d.0)) else (d, 4);
  write = λ reg v d.
      if reg == spi_dtr
      then (d.0 ++ (if d.1 == 1 && v == 0xff then 0 else 0xff) ∷ [], if v == 0xff then 0 else 1)
      else if reg == spi_cr
      then ([], d.1)
      else d;
}

abbrev wired : Bus (Option (List ℕ × ℕ))
wired = spi_bus controller 1

ready_at_once : (send_cmd wired acmd41 0 (some ([], 0))).1 ≡ 0
unfolding send_cmd spi_bus spi_send spi_send_multi spi_recv_multi wait_sent write_all read_all
    spi_select_slave spi_deselect_slave
ready_at_once = refl

ready_again : (send_cmd wired acmd41 0 ((send_cmd wired acmd41 0 (some ([], 0))).0)).1 ≡ 0
unfolding send_cmd spi_bus spi_send spi_send_multi spi_recv_multi wait_sent write_all read_all
    spi_select_slave spi_deselect_slave
ready_again = refl

init_old-ready_example : (init_old wired 7 (some ([], 0))).1 ≡ 0
init_old-ready_example = init_old-ready wired 4 (some ([], 0)) ready_at_once ready_again

-- The register of a card of version 2 with C_SIZE 0x3b37 and blocks of 512 bytes.
abbrev csd : List ℕ
csd = 0x40 ∷ 0 ∷ 0 ∷ 0 ∷ 0 ∷ 0x59 ∷ 0 ∷ 0 ∷ 0x3b ∷ 0x37 ∷ []

csd-lt : (i : ℕ) → get_or csd i 0 < 256
csd-lt zero = omega arith
csd-lt (suc zero) = omega arith
csd-lt (suc (suc zero)) = omega arith
csd-lt (suc (suc (suc zero))) = omega arith
csd-lt (suc (suc (suc (suc zero)))) = omega arith
csd-lt (suc (suc (suc (suc (suc zero))))) = omega arith
csd-lt (suc (suc (suc (suc (suc (suc zero)))))) = omega arith
csd-lt (suc (suc (suc (suc (suc (suc (suc zero))))))) = omega arith
csd-lt (suc (suc (suc (suc (suc (suc (suc (suc zero)))))))) = omega arith
csd-lt (suc (suc (suc (suc (suc (suc (suc (suc (suc zero))))))))) = omega arith
csd-lt (suc (suc (suc (suc (suc (suc (suc (suc (suc (suc i)))))))))) = omega arith

sector_count_lem_example : sector_count csd ≡ 0x3b38 * 1024
unfolding bits
sector_count_lem_example = sector_count_lem csd csd-lt (omega arith) (omega arith)
