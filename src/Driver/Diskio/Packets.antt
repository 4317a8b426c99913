-- ===== src/Driver/Diskio/Packets.antt =====
-- The data packets and the commands of driver/diskio.c. The loops `while (xchg_spi(0xFF) == 0x00);`
-- have no bound: they run for at most `patience` bytes here, and `none` says that the card still
-- sends zeros.
use lowrisc_kc.Base.{
  ℕ, zero, suc, ◌+◌, ◌*◌, ◌/◌, ◌^◌, Bool, true, false, not, Option, none, some, List, [], ◌∷◌,
  bit_and, bit_or, if◌then◌else◌, leb, ◌==◌, u8,
}
use lowrisc_kc.Driver.Diskio.Spi.{
  Bus, xchg_spi, send_bytes, xmit_spi_multi, rcvr_spi_multi, poll, rounds_after_first, wait_ready,
  deselect, select,
}

infixl 20 ◌>>=◌
unfoldable pub ◌>>=◌ : {A B : Type 0} → Option A → (A → Option B) → Option B
none >>= f = none
some a >>= f = f a

-- The commands; ACMD<n> has bit 7 set.
abbrev pub cmd0 : ℕ
cmd0 = 0

abbrev pub cmd1 : ℕ
cmd1 = 1

abbrev pub acmd41 : ℕ
acmd41 = 0x80 + 41

abbrev pub cmd8 : ℕ
cmd8 = 8

abbrev pub cmd9 : ℕ
cmd9 = 9

abbrev pub cmd10 : ℕ
cmd10 = 10

abbrev pub cmd12 : ℕ
cmd12 = 12

abbrev pub acmd13 : ℕ
acmd13 = 0x80 + 13

abbrev pub cmd16 : ℕ
cmd16 = 16

abbrev pub cmd17 : ℕ
cmd17 = 17

abbrev pub cmd18 : ℕ
cmd18 = 18

abbrev pub acmd23 : ℕ
acmd23 = 0x80 + 23

abbrev pub cmd24 : ℕ
cmd24 = 24

abbrev pub cmd25 : ℕ
cmd25 = 25

abbrev pub cmd55 : ℕ
cmd55 = 55

abbrev pub cmd58 : ℕ
cmd58 = 58

-- The packet of a command with no ACMD bit.
unfoldable pub packet : ℕ → ℕ → List ℕ
packet cmd arg =
    bit_or 0x40 cmd
    ∷ u8 (arg / 2 ^ 24)
    ∷ u8 (arg / 2 ^ 16)
    ∷ u8 (arg / 2 ^ 8)
    ∷ u8 arg
    ∷ (if cmd == cmd8 then 0x87 else if cmd == cmd0 then 0x95 else 0x01)
    ∷ []

module _ {S : Type 0} (bus : Bus S) where
  -- The rest of a packet, by whether its token is valid. `return 0` is `none`; otherwise the bytes
  -- that are stored into the buffer.
  unfoldable pub after_token : ℕ → Bool → S → S × Option (List ℕ)
  unfolding rcvr_spi_multi xchg_spi
  after_token btr true s =
      let block = rcvr_spi_multi bus btr s in
      ((xchg_spi bus 0xff ((xchg_spi bus 0xff (block.0)).0)).0, some (block.1))
  after_token btr false s = (s, none)

  unfoldable pub rcvr_datablock : ℕ → S → S × Option (List ℕ)
  unfolding poll rounds_after_first after_token
  rcvr_datablock btr s =
      let token = poll bus (λ d. not (d == 0xff)) (rounds_after_first (200 * 5000)) s in
      after_token btr (token.1 == 0xfe) (token.0)

  -- `while (xchg_spi(0xFF) == 0x00);`
  unfoldable pub skip_zeros : ℕ → S → Option S
  unfolding xchg_spi
  skip_zeros zero s = none
  skip_zeros (suc patience) s =
      let r = xchg_spi bus 0xff s in
      elim (r.1 == 0) [ true ↦ skip_zeros patience (r.0) | false ↦ some (r.0) ]

  -- The data response, and the wait at the end.
  unfoldable pub accepted : S → S × Bool
  unfolding xchg_spi wait_ready
  accepted s =
      let resp = xchg_spi bus 0xff s in
      if bit_and (resp.1) 0x1f == 0x05
      then ((wait_ready bus 500 (resp.0)).0, true)
      else (resp.0, false)

  unfoldable pub xmit_datablock : ℕ → List ℕ → ℕ → S → Option (S × Bool)
  unfolding wait_ready xchg_spi xmit_spi_multi skip_zeros accepted ◌>>=◌
  xmit_datablock patience buff token s =
      let ready = wait_ready bus 500 s in
      elim (ready.1) [
        | false ↦ some (ready.0, false)
        | true ↦
            let sent = (xchg_spi bus token (ready.0)).0 in
            elim (token == 0xfd) [
              | true ↦ some ((wait_ready bus 500 sent).0, true)
              | false ↦ do
                crc ← skip_zeros patience (xmit_spi_multi bus buff 512 sent)
                after ← skip_zeros patience crc
                some (accepted after)
            ]
      ]

  -- From the packet to the response, for which there are ten attempts.
  unfoldable pub command : ℕ → ℕ → S → S × ℕ
  unfolding packet send_bytes xchg_spi poll
  command cmd arg s =
      let sent = send_bytes bus (packet cmd arg) s in
      let skipped = if cmd == cmd12 then (xchg_spi bus 0xff sent).0 else sent in
      poll bus (λ res. bit_and res 0x80 == 0) 9 skipped

  -- send_cmd with bit 7 of `cmd` clear.
  unfoldable pub send_plain : ℕ → ℕ → S → S × ℕ
  unfolding command deselect select
  send_plain cmd arg s =
      if cmd == cmd12
      then command cmd arg s
      else (let selected = select bus (deselect bus s) in
          if selected.1 then command cmd arg (selected.0) else (selected.0, 0xff))

  unfoldable pub send_cmd : ℕ → ℕ → S → S × ℕ
  unfolding send_plain
  send_cmd cmd arg s =
      if bit_and cmd 0x80 == 0
      then send_plain cmd arg s
      else (let res = send_plain cmd55 0 s in
          if leb (res.1) 1 then send_plain (bit_and cmd 0x7f) arg (res.0) else res)
