-- ===== src/Console/Tests.antt =====
-- Formats on concrete arguments.
use lowrisc_kc.Base.{
  some, ◌++◌, u8, ℕ, ◌-◌, ◌^◌, ◌<◌, ◌≤◌, ◌≡◌, ◌↔◌, refl, false, List, [], ◌∷◌, get_or, ltb, ◌==◌,
  if◌then◌else◌, arith,
}
use lowrisc_kc.Base.Outcome.{store}
use lowrisc_kc.Console.{
  Printer, done, undefined, vsnprintf, vprintk, sent, directive, put_string, started,
}
use lowrisc_kc.Console.Text.{Renders, end, plain, percent, signed, integer}
use lowrisc_kc.Base.Numerals.{signed_text}
use lowrisc_kc.Console.Whole.{vsnprintf-Renders}
use lowrisc_kc.Console.Line.{printk, printk-Renders}
use lowrisc_kc.Driver.Device.{Device, wait}
use lowrisc_kc.Driver.Uart.{uart_thr, all_sent}
use lowrisc_kc.Driver.Uart.Sending.{IsUart}
use lowrisc_kc.Console.Bounds.{vsnprintf-in_bounds}
use lowrisc_kc.Console.Overrun.{directive_string-undefined}

abbrev no_text : ℕ → List ℕ
no_text a = b'a' ∷ b'b' ∷ b'c' ∷ []

abbrev minus_five : ℕ → ℕ
minus_five i = 2 ^ 64 - 5

-- "%d!"
abbrev format : List ℕ
format = b'%' ∷ b'd' ∷ b'!' ∷ []

abbrev shown : List ℕ
shown = b'-' ∷ b'5' ∷ b'!' ∷ []

format-Renders : Renders no_text minus_five false false 0 format shown
unfolding integer signed_text
format-Renders = percent false 0 b'%' (b'd' ∷ b'!' ∷ []) shown refl (
    signed false 0 b'd' (b'!' ∷ []) (b'!' ∷ []) shown refl (omega arith) refl
      (plain false 1 b'!' [] [] (omega arith) (end false false 1)))

vsnprintf-Renders_example :
    (p : Printer) × (vsnprintf no_text minus_five 8 format (λ i. 1) ≡ done p)
    × (p.pos ≡ 3)
    × ((i : ℕ) → p.out i ≡ (if ltb i 3 then get_or shown i 0 else if i == 3 then 0 else 1))
vsnprintf-Renders_example =
    vsnprintf-Renders no_text minus_five 8 format shown (λ i. 1) (omega arith) format-Renders
      (omega arith)

-- A UART that is always ready.
abbrev wire : Device (List ℕ)
wire = record {
  read = λ reg d. (d, 0x40);
  write = λ reg v d. if reg == uart_thr then d ++ u8 v ∷ [] else d;
}

wire-IsUart : IsUart wire 1 (λ d. d)
unfolding wait all_sent
wire-IsUart = record { line-write = λ v d. refl; ready = λ d. (d, refl, refl) }

printk-Renders_example :
    (e : List ℕ) × (printk wire 1 no_text minus_five format (λ i. 1) (b'>' ∷ []) ≡ some e)
    × (e ≡ b'>' ∷ b'-' ∷ b'5' ∷ b'!' ∷ [])
printk-Renders_example =
    printk-Renders wire 1 (λ d. d) no_text minus_five format shown (λ i. 1) (b'>' ∷ []) wire-IsUart
      format-Renders (omega arith)

-- A buffer of two bytes, for one letter.
abbrev cut : Printer
cut = record {
  out = store (store (λ i. 7) 0 b'h') 1 0;
  pos = 3;
  arg = 0;
  format = false;
  longarg = false;
}

hey : vsnprintf no_text minus_five 2 (b'h' ∷ b'e' ∷ b'y' ∷ []) (λ i. 7) ≡ done cut
unfolding vsnprintf
hey = refl

vsnprintf-in_bounds_example : ((i : ℕ) → 2 ≤ i → cut.out i ≡ 7) × (0 < 2 → cut.out 1 ≡ 0)
vsnprintf-in_bounds_example =
    vsnprintf-in_bounds no_text minus_five 2 (b'h' ∷ b'e' ∷ b'y' ∷ []) (λ i. 7) cut hey

directive_string-undefined_example :
    (directive no_text minus_five 3 b's' (started (λ i. 7)) ≡ undefined) ↔ ((0 < 3) × (3 ≤ 3))
directive_string-undefined_example =
    directive_string-undefined no_text minus_five 3 (started (λ i. 7)) (omega arith) (omega arith)
      (omega arith)

-- "%s" with "abc".
string_sent :
    vprintk no_text minus_five (b'%' ∷ b's' ∷ []) (λ i. 7) ≡ sent (b'a' ∷ b'b' ∷ b'c' ∷ [])
unfolding vprintk vsnprintf put_string
string_sent = refl
