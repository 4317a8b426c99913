-- ===== src/Console/Line.antt =====
-- `printk` of bbl/console.c on the line of the UART of driver/uart.c.
use lowrisc_kc.Base.{ℕ, ◌<◌, ◌≡◌, ap, ◌∙◌, false, Option, none, some, List, ◌++◌, length, u8}
use lowrisc_kc.Driver.Device.{Device}
use lowrisc_kc.Driver.Uart.{uart_send_buf}
use lowrisc_kc.Driver.Uart.Sending.{IsUart, uart_send_buf_lem}
use lowrisc_kc.Console.{Sent, sent, panics, hangs, anything, vprintk}
use lowrisc_kc.Console.Text.{Renders}
use lowrisc_kc.Console.Whole.{vprintk-Renders}
use mathlib.Core.List.{map}

module _ {D : Type 0} (dev : Device D) (rounds : ℕ) where
  unfoldable pub put_line : Sent → D → Option D
  put_line (sent buf) d = uart_send_buf dev rounds buf d
  put_line panics d = none
  put_line hangs d = none
  put_line anything d = none

  -- `none`: it panics, does not end, or is undefined.
  unfoldable pub printk : (ℕ → List ℕ) → (ℕ → ℕ) → List ℕ → (ℕ → ℕ) → D → Option D
  unfolding put_line
  printk text vl s out d = put_line (vprintk text vl s out) d

-- On a UART that is found ready within the rounds, printk of a format with a meaning, whose text is
-- shorter than its buffer, comes to an end, and puts exactly the text of the format on the line.
pub printk-Renders :
    {D : Type 0} (dev : Device D) (rounds : ℕ) (line : D → List ℕ) (text : ℕ → List ℕ) (vl : ℕ → ℕ)
    (s t : List ℕ) (out : ℕ → ℕ) (d : D)
    → IsUart dev rounds line
    → Renders text vl false false 0 s t
    → length t < 256
    → (e : D) × (printk dev rounds text vl s out d ≡ some e) × (line e ≡ line d ++ map u8 t)
unfolding printk
printk-Renders dev rounds line text vl s t out d uart r h =
    let (e, w, l) = uart_send_buf_lem dev rounds line uart t d in
    (e, ap (λ (x : Sent). put_line dev rounds x d) (vprintk-Renders text vl s t out r h) ∙ w, l)
