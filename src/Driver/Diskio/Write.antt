-- ===== src/Driver/Diskio/Write.antt =====
-- `disk_write` of driver/diskio.c. `none` says that the card still sends zeros after `patience`
-- bytes, where the source goes on polling.
use lowrisc_kc.Base.{
  ℕ, zero, suc, true, false, not, ◌||◌, Option, some, List, [], if◌then◌else◌, ◌==◌, drop,
}
use lowrisc_kc.Driver.Diskio.Spi.{Bus, deselect}
use lowrisc_kc.Driver.Diskio.Packets.{acmd23, cmd24, cmd25, send_cmd, xmit_datablock, ◌>>=◌}
use lowrisc_kc.Driver.Diskio.{
  Disk, Dresult, res_notrdy, res_parerr, res_wrprt, sta_noinit, sta_protect, ct_sdc, has, address,
  result_of,
}

module _ {S : Type 0} (bus : Bus S) where
  -- The single block: the sectors that are left.
  unfoldable pub write_single : ℕ → ℕ → List ℕ → S → Option (S × ℕ)
  unfolding send_cmd xmit_datablock ◌>>=◌
  write_single patience addr buff s =
      let sent = send_cmd bus cmd24 addr s in
      elim (sent.1 == 0) [
        | false ↦ some (sent.0, 1)
        | true ↦ do
          block ← xmit_datablock bus patience buff 0xfe (sent.0)
          some (block.0, if block.1 then 0 else 1)
      ]

  -- The loop over the blocks: the sectors that are left.
  unfoldable pub write_blocks : ℕ → ℕ → List ℕ → S → Option (S × ℕ)
  unfolding xmit_datablock ◌>>=◌
  write_blocks patience zero buff s = some (s, zero)
  write_blocks patience (suc count) buff s = do
    block ← xmit_datablock bus patience buff 0xfc s
    elim (block.1) [
      | false ↦ some (block.0, suc count)
      | true ↦ write_blocks patience count (drop 512 buff) (block.0)
    ]

  unfoldable pub write_multiple : ℕ → ℕ → ℕ → List ℕ → S → Option (S × ℕ)
  unfolding send_cmd write_blocks xmit_datablock ◌>>=◌
  write_multiple patience addr count buff s =
      let sent = send_cmd bus cmd25 addr s in
      elim (sent.1 == 0) [
        | false ↦ some (sent.0, count)
        | true ↦ do
          blocks ← write_blocks patience count buff (sent.0)
          stop ← xmit_datablock bus patience [] 0xfd (blocks.0)
          some (stop.0, if stop.1 then blocks.1 else 1)
      ]

  unfoldable pub write_sectors : ℕ → Disk S → ℕ → ℕ → List ℕ → Option (S × ℕ)
  unfolding write_single write_multiple send_cmd has
  write_sectors patience d addr count buff =
      if count == 1
      then write_single patience addr buff d.link
      else (let counted =
            if has d.card_type ct_sdc then (send_cmd bus acmd23 count d.link).0 else d.link in
          write_multiple patience addr count buff counted)

  unfoldable pub disk_write : ℕ → ℕ → List ℕ → ℕ → ℕ → Disk S → Option (Disk S × Dresult)
  unfolding has address write_sectors deselect result_of ◌>>=◌
  disk_write patience pdrv buff sector count d =
      if not (pdrv == 0) || count == 0
      then some (d, res_parerr)
      else if has d.stat sta_noinit
      then some (d, res_notrdy)
      else if has d.stat sta_protect
      then some (d, res_wrprt)
      else do
        r ← write_sectors patience d (address d sector) count buff
        some (record d { link = deselect bus (r.0) }, result_of (r.1))
