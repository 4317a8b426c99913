-- ===== src/Driver/Uart/Sending.antt =====
-- The bytes that driver/uart.c puts on the line.
use lowrisc_kc.Base.{ℕ, ◌≡◌, refl, sym, ap, ◌∙◌, some, List, [], ◌∷◌, ◌++◌, u8}
use lowrisc_kc.Driver.Device.{Device, wait}
use lowrisc_kc.Driver.Uart.{uart_thr, uart_lsr, all_sent, uart_send, uart_send_buf}
use mathlib.Core.List.{map, append-nil, append_assoc}

-- A UART whose line has carried the bytes `line`: a byte that is written is sent, and within the
-- rounds the transmitter is found empty.
pub record IsUart {D : Type 0} (dev : Device D) (rounds : ℕ) (line : D → List ℕ) : Type 0 where
  pub line-write : (v : ℕ) (d : D) → line (dev.write uart_thr v d) ≡ line d ++ u8 v ∷ []
  pub ready : (d : D) → (e : D) × (wait dev rounds uart_lsr all_sent d ≡ some e) × (line e ≡ line d)

module _ {D : Type 0} (dev : Device D) (rounds : ℕ) (line : D → List ℕ)
    (uart : IsUart dev rounds line) where
  pub uart_send_lem :
      (byte : ℕ) (d : D)
      → (e : D) × (uart_send dev rounds byte d ≡ some e) × (line e ≡ line d ++ u8 byte ∷ [])
  unfolding uart_send
  uart_send_lem byte d =
      let (e, w, l) = uart.ready d in
      (
        dev.write uart_thr byte e,
        rw w refl,
        uart.line-write byte e ∙ ap (λ (x : List ℕ). x ++ u8 byte ∷ []) l,
      )

  pub uart_send_buf_lem :
      (buf : List ℕ) (d : D)
      → (e : D) × (uart_send_buf dev rounds buf d ≡ some e) × (line e ≡ line d ++ map u8 buf)
  unfolding uart_send_buf
  uart_send_buf_lem [] d = (d, refl, sym (append-nil (line d)))
  uart_send_buf_lem (byte ∷ buf) d =
      let (e, w, l) = uart_send_lem byte d in
      let (f, w', l') = uart_send_buf_lem buf e in
      (
        f,
        rw (w, uart_send_buf) w',
        l'
            ∙ ap (λ (x : List ℕ). x ++ map u8 buf) l
            ∙ append_assoc (line d) (u8 byte ∷ []) (map u8 buf),
      )
