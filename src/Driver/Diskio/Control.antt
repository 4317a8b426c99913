-- ===== src/Driver/Diskio/Control.antt =====
-- `disk_ioctl` of driver/diskio.c. What it stores into the buffer is a list of words of 32 bits or
-- of bytes, empty where it stores nothing.
use lowrisc_kc.Base.{
  ℕ, ◌+◌, ◌-◌, ◌*◌, ◌/◌, ◌^◌, true, false, not, none, some, List, [], ◌∷◌, bit_and, bit_or, get_or,
  if◌then◌else◌, ltb, ◌==◌, u8, u16, u32,
}
use lowrisc_kc.Driver.Diskio.Spi.{Bus, xchg_spi, recv_bytes, select, deselect}
use lowrisc_kc.Driver.Diskio.Packets.{cmd9, cmd10, cmd58, acmd13, send_cmd, rcvr_datablock}
use lowrisc_kc.Driver.Diskio.{
  Disk, Dresult, res_ok, res_error, res_notrdy, res_parerr, sta_noinit, ct_sd1, ct_sd2, has,
}

abbrev pub ctrl_sync : ℕ
ctrl_sync = 0

abbrev pub get_sector_count : ℕ
get_sector_count = 1

abbrev pub get_block_size : ℕ
get_block_size = 3

abbrev pub ctrl_power_off : ℕ
ctrl_power_off = 7

abbrev pub mmc_get_type : ℕ
mmc_get_type = 50

abbrev pub mmc_get_csd : ℕ
mmc_get_csd = 51

abbrev pub mmc_get_cid : ℕ
mmc_get_cid = 52

abbrev pub mmc_get_ocr : ℕ
mmc_get_ocr = 53

abbrev pub mmc_get_sdstat : ℕ
mmc_get_sdstat = 54

-- A shift of a `uint32_t` by a `uint8_t` that C promotes to int: a count that is not below 32 is
-- undefined in C, and gives 0 here.
unfoldable pub shift_left : ℕ → ℕ → ℕ
shift_left x count = if ltb count 32 then u32 (x * 2 ^ count) else 0

abbrev pub at : List ℕ → ℕ → ℕ
at csd i = get_or csd i 0

-- SDC ver 2.00: `csize << 10`.
unfoldable pub sectors_v2 : List ℕ → ℕ
unfolding shift_left
sectors_v2 csd =
    shift_left (u32 (at csd 9 + u16 (at csd 8) * 2 ^ 8 + bit_and (at csd 7) 63 * 2 ^ 16 + 1)) 10

-- SDC ver 1.XX or MMC: `csize << (n - 9)`, where `n` is below 9 for blocks of less than 512 bytes.
unfoldable pub sectors_v1 : List ℕ → ℕ
sectors_v1 csd =
    let n =
      u8 (bit_and (at csd 5) 15 + bit_and (at csd 10) 128 / 2 ^ 7 + bit_and (at csd 9) 3 * 2 + 2) in
    let csize =
      at csd 8 / 2 ^ 6 + u16 (at csd 7) * 2 ^ 2 + u16 (bit_and (at csd 6) 3) * 2 ^ 10 + 1 in
    shift_left csize (if ltb n 9 then 2 ^ 32 + n - 9 else n - 9)

unfoldable pub sector_count : List ℕ → ℕ
unfolding sectors_v1 sectors_v2
sector_count csd = if at csd 0 / 2 ^ 6 == 1 then sectors_v2 csd else sectors_v1 csd

unfoldable pub erase_sd1 : List ℕ → ℕ
unfolding shift_left
erase_sd1 csd =
    let size = bit_and (at csd 10) 63 * 2 + u16 (bit_and (at csd 11) 128) / 2 ^ 7 + 1 in
    shift_left size (if at csd 13 / 2 ^ 6 == 0 then 2 ^ 32 - 1 else at csd 13 / 2 ^ 6 - 1)

unfoldable pub erase_mmc : List ℕ → ℕ
erase_mmc csd =
    (u16 (bit_and (at csd 10) 124 / 2 ^ 2) + 1)
    * (bit_and (at csd 11) 3 * 2 ^ 3 + bit_and (at csd 11) 224 / 2 ^ 5 + 1)

-- The state of the bus, the result and what is stored.
abbrev pub Control : Type 0 → Type 0
Control S = S × Dresult × List ℕ

module _ {S : Type 0} (bus : Bus S) where
  -- `send_cmd(cmd, 0) == 0 && rcvr_datablock(csd, 16)`, and what is stored of the block.
  unfoldable pub with_block : ℕ → (List ℕ → List ℕ) → S → Control S
  unfolding send_cmd rcvr_datablock
  with_block cmd stored s =
      let sent = send_cmd bus cmd 0 s in
      elim (sent.1 == 0) [
        | false ↦ (sent.0, res_error, [])
        | true ↦
            let block = rcvr_datablock bus 16 (sent.0) in
            elim (block.1) [
              | none ↦ (block.0, res_error, [])
              | some csd ↦ (block.0, res_ok, stored csd)
            ]
      ]

  -- The SD status: `btr` bytes of it, of which `purge` more are read and dropped.
  unfoldable pub with_status : ℕ → ℕ → (List ℕ → List ℕ) → S → Control S
  unfolding send_cmd xchg_spi rcvr_datablock recv_bytes
  with_status btr purge stored s =
      let sent = send_cmd bus acmd13 0 s in
      elim (sent.1 == 0) [
        | false ↦ (sent.0, res_error, [])
        | true ↦
            let block = rcvr_datablock bus btr ((xchg_spi bus 0xff (sent.0)).0) in
            elim (block.1) [
              | none ↦ (block.0, res_error, [])
              | some status ↦ ((recv_bytes bus purge (block.0)).0, res_ok, stored status)
            ]
      ]

  unfoldable pub block_size : ℕ → S → Control S
  unfolding has with_status with_block erase_sd1 erase_mmc shift_left
  block_size card_type s =
      if has card_type ct_sd2
      then with_status 16 (64 - 16) (λ csd. shift_left 16 (at csd 10 / 2 ^ 4) ∷ []) s
      else with_block cmd9
          (λ csd. (if has card_type ct_sd1 then erase_sd1 csd else erase_mmc csd) ∷ []) s

  unfoldable pub read_ocr : S → Control S
  unfolding send_cmd recv_bytes
  read_ocr s =
      let sent = send_cmd bus cmd58 0 s in
      elim (sent.1 == 0) [
        | false ↦ (sent.0, res_error, [])
        | true ↦ let r = recv_bytes bus 4 (sent.0) in (r.0, res_ok, r.1)
      ]

  unfoldable pub synced : S → Control S
  unfolding select
  synced s = let r = select bus s in (r.0, (if r.1 then res_ok else res_error), [])

  -- The switch.
  unfoldable pub control : ℕ → Disk S → Control S
  unfolding synced with_block sector_count block_size read_ocr with_status
  control cmd d =
      if cmd == ctrl_sync
      then synced d.link
      else if cmd == get_sector_count
      then with_block cmd9 (λ csd. sector_count csd ∷ []) d.link
      else if cmd == get_block_size
      then block_size d.card_type d.link
      else if cmd == mmc_get_type
      then (d.link, res_ok, u8 d.card_type ∷ [])
      else if cmd == mmc_get_csd
      then with_block cmd9 (λ csd. csd) d.link
      else if cmd == mmc_get_cid
      then with_block cmd10 (λ cid. cid) d.link
      else if cmd == mmc_get_ocr
      then read_ocr d.link
      else if cmd == mmc_get_sdstat
      then with_status 64 0 (λ status. status) d.link
      else if cmd == ctrl_power_off
      then (bus.spi_disable d.link, res_ok, [])
      else (d.link, res_parerr, [])

  unfoldable pub disk_ioctl : ℕ → ℕ → Disk S → Disk S × Dresult × List ℕ
  unfolding has control deselect
  disk_ioctl pdrv cmd d =
      if not (pdrv == 0)
      then (d, res_parerr, [])
      else if has d.stat sta_noinit
      then (d, res_notrdy, [])
      else (let r = control cmd d in
          (
            record d {
              link = deselect bus (r.0);
              stat = if cmd == ctrl_power_off then bit_or d.stat sta_noinit else d.stat;
            },
            r.1,
            r.2,
          ))
