-- ===== src/Driver/Diskio.antt =====
-- The SD card driver, driver/diskio.c: the functions that the file system calls. The card and the
-- bus are a parameter, and so is the number of zeros that a write waits through.
pub mod Spi
pub mod Packets
pub mod Init
pub mod Write
pub mod Control
pub mod Capacity
mod Tests
use lowrisc_kc.Base.{
  ℕ, zero, suc, ◌+◌, ◌-◌, ◌*◌, ◌^◌, Bool, true, false, not, ◌&&◌, ◌||◌, Option, none, some, List,
  [], ◌++◌, bit_and, bit_or, if◌then◌else◌, ltb, leb, ◌==◌, u32, get_or, take, drop,
}
use lowrisc_kc.Driver.Diskio.Spi.{Bus, recv_bytes, deselect}
use lowrisc_kc.Driver.Diskio.Packets.{
  cmd0, cmd1, acmd41, cmd8, cmd12, cmd16, cmd17, cmd18, acmd23, cmd24, cmd25, cmd58, rcvr_datablock,
  xmit_datablock, send_cmd,
}

-- `Stat` and `CardType`, with the bus.
pub record Disk (S : Type 0) : Type 0 where
  pub link : S
  pub stat : ℕ
  pub card_type : ℕ

pub data Dresult : Type 0 where
  res_ok : Dresult
  res_error : Dresult
  res_wrprt : Dresult
  res_notrdy : Dresult
  res_parerr : Dresult

abbrev pub sta_noinit : ℕ
sta_noinit = 0x01

abbrev pub sta_nodisk : ℕ
sta_nodisk = 0x02

abbrev pub sta_protect : ℕ
sta_protect = 0x04

abbrev pub ct_mmc : ℕ
ct_mmc = 0x01

abbrev pub ct_sd1 : ℕ
ct_sd1 = 0x02

abbrev pub ct_sd2 : ℕ
ct_sd2 = 0x04

abbrev pub ct_sdc : ℕ
ct_sdc = bit_or ct_sd1 ct_sd2

abbrev pub ct_block : ℕ
ct_block = 0x08

-- `x & flag` as a condition.
unfoldable pub has : ℕ → ℕ → Bool
has x flag = not (bit_and x flag == 0)

-- `timeout--` of a `uint32_t`.
unfoldable pub less_one : ℕ → ℕ
less_one timeout = if timeout == 0 then 2 ^ 32 - 1 else timeout - 1

unfoldable pub result_of : ℕ → Dresult
result_of count = if count == 0 then res_ok else res_error

unfoldable pub disk_status : {S : Type 0} → ℕ → Disk S → ℕ
disk_status pdrv d = if pdrv == 0 then d.stat else sta_noinit

-- The address of a sector.
unfoldable pub address : {S : Type 0} → Disk S → ℕ → ℕ
unfolding has
address d sector = if has d.card_type ct_block then sector else u32 (sector * 512)

module _ {S : Type 0} (bus : Bus S) where
  -- `while (timeout-- && send_cmd(cmd, arg));`, which leaves the timeout wrapped around when it
  -- runs out.
  unfoldable pub leave_idle : ℕ → ℕ → ℕ → S → S × ℕ
  unfolding send_cmd
  leave_idle cmd arg zero s = (s, 2 ^ 32 - 1)
  leave_idle cmd arg (suc timeout) s =
      let r = send_cmd bus cmd arg s in
      elim (r.1 == 0) [ true ↦ (r.0, timeout) | false ↦ leave_idle cmd arg timeout (r.0) ]

  -- `timeout-- && send_cmd(cmd, arg) <test>`: the timeout is decremented either way.
  unfoldable pub answers : (ℕ → Bool) → ℕ → ℕ → ℕ → S → S × Bool
  unfolding send_cmd
  answers test cmd arg timeout s = elim (timeout == 0) [
    | true ↦ (s, false)
    | false ↦ let r = send_cmd bus cmd arg s in (r.0, test (r.1))
  ]

  -- The type of an SDv2 card, once it has answered CMD8.
  unfoldable pub init_sd2 : ℕ → S → S × ℕ
  unfolding leave_idle answers recv_bytes has
  init_sd2 timeout s =
      let r7 = recv_bytes bus 4 s in
      if get_or (r7.1) 2 0 == 0x01 && get_or (r7.1) 3 0 == 0xaa
      then (let idle = leave_idle acmd41 (2 ^ 30) timeout (r7.0) in
          let ccs = answers (λ res. res == 0) cmd58 0 (idle.1) (idle.0) in
          if ccs.1
          then (let ocr = recv_bytes bus 4 (ccs.0) in
              (ocr.0, if has (get_or (ocr.1) 0 0) 0x40 then bit_or ct_sd2 ct_block else ct_sd2))
          else (ccs.0, 0))
      else (r7.0, 0)

  -- The end of the other branch: the loop, and `if (timeout-- || send_cmd(CMD16, 512) != 0) ty = 0;`.
  unfoldable pub finish_old : ℕ → ℕ → ℕ → S → S × ℕ
  unfolding leave_idle send_cmd
  finish_old ty cmd timeout s =
      let idle = leave_idle cmd 0 timeout s in
      elim (idle.1 == 0) [
        | false ↦ (idle.0, 0)
        | true ↦ let r = send_cmd bus cmd16 512 (idle.0) in (r.0, if r.1 == 0 then ty else 0)
      ]

  -- The type of an SDv1 or MMCv3 card.
  unfoldable pub init_old : ℕ → S → S × ℕ
  unfolding answers less_one finish_old
  init_old timeout s =
      let sd1 = answers (λ res. leb res 1) acmd41 0 timeout s in
      if sd1.1
      then finish_old ct_sd1 acmd41 (less_one timeout) (sd1.0)
      else finish_old ct_mmc cmd1 (less_one timeout) (sd1.0)

  unfoldable pub card_init : S → S × ℕ
  unfolding send_cmd answers less_one init_sd2 init_old
  card_init s =
      let idle = send_cmd bus cmd0 0 s in
      elim (idle.1 == 1) [
        | false ↦ (idle.0, 0)
        | true ↦
            let sd2 = answers (λ res. res == 1) cmd8 0x1aa (1000 * 1000) (idle.0) in
            elim (sd2.1) [
              | true ↦ init_sd2 (less_one (1000 * 1000)) (sd2.0)
              | false ↦ init_old (less_one (1000 * 1000)) (sd2.0)
            ]
      ]

  unfoldable pub disk_initialize : ℕ → Disk S → Disk S × ℕ
  unfolding has recv_bytes card_init deselect
  disk_initialize pdrv d =
      if not (pdrv == 0)
      then (d, sta_noinit)
      else (let off = bus.spi_disable d.link in
          if has d.stat sta_nodisk
          then (record d { link = off }, d.stat)
          else (let card = card_init ((recv_bytes bus 10 (bus.spi_init off)).0) in
              let s = deselect bus (card.0) in
              if card.1 == 0
              then (record d { link = bus.spi_disable s; card_type = 0 }, d.stat)
              else (let stat = bit_and d.stat 0xfe in
                  (record { link = s; stat = stat; card_type = card.1 }, stat))))

  -- The loop over the blocks: the blocks that are left, and the bytes that are stored.
  unfoldable pub read_blocks : ℕ → S → S × ℕ × List ℕ
  unfolding rcvr_datablock
  read_blocks zero s = (s, zero, [])
  read_blocks (suc count) s =
      let block = rcvr_datablock bus 512 s in
      elim (block.1) [
        | none ↦ (block.0, suc count, [])
        | some bytes ↦ let rest = read_blocks count (block.0) in (rest.0, rest.1, bytes ++ rest.2)
      ]

  unfoldable pub read_sectors : ℕ → ℕ → S → S × ℕ × List ℕ
  unfolding send_cmd read_blocks
  read_sectors addr count s =
      let cmd = if ltb 1 count then cmd18 else cmd17 in
      let sent = send_cmd bus cmd addr s in
      elim (sent.1 == 0) [
        | false ↦ (sent.0, count, [])
        | true ↦
            let blocks = read_blocks count (sent.0) in
            let stopped = if cmd == cmd18 then (send_cmd bus cmd12 0 (blocks.0)).0 else blocks.0 in
            (stopped, blocks.1, blocks.2)
      ]

  unfoldable pub disk_read : ℕ → ℕ → ℕ → Disk S → Disk S × Dresult × List ℕ
  unfolding has address read_sectors deselect result_of
  disk_read pdrv sector count d =
      if not (pdrv == 0) || count == 0
      then (d, res_parerr, [])
      else if has d.stat sta_noinit
      then (d, res_notrdy, [])
      else (let r = read_sectors (address d sector) count d.link in
          (record d { link = deselect bus (r.0) }, result_of (r.1), r.2))
