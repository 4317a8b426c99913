-- ===== src/Driver/Printing/Tests.antt =====
-- Numbers, formats and characters that the driver prints.
use lowrisc_kc.Base.{ℕ, ◌-◌, ◌<◌, ◌≡◌, refl, List, [], ◌∷◌, ◌++◌, some, length, replicate, arith}
use lowrisc_kc.Base.Int.{pos}
use lowrisc_kc.Driver.Printing.{printnum, vprintfmt, Stdout, digs, digit_char}
use lowrisc_kc.Driver.Printing.Numbers.{IsNumeral, text_value, printnum-text_value}
use lowrisc_kc.Driver.Printing.Ending.{vprintfmt_enough}
use lowrisc_kc.Driver.Printing.Buffered.{put_all, output, put_all-output}

printnum-text_value_example :
    (s : List ℕ) × (printnum 0x3f 16 (pos 5) b'0' ≡ replicate (5 - length s) b'0' ++ s)
    × IsNumeral 16 s
    × (text_value 16 0 s ≡ 0x3f)
printnum-text_value_example =
    printnum-text_value 0x3f 16 (pos 5) b'0' (omega arith) (omega arith) (omega arith)

abbrev no_text : ℕ → List ℕ
no_text a = b'a' ∷ b'b' ∷ b'c' ∷ []

abbrev words : ℕ → ℕ
words i = 42

-- "%-5d|%"
abbrev left : List ℕ
left = b'%' ∷ b'-' ∷ b'5' ∷ b'd' ∷ b'|' ∷ b'%' ∷ []

vprintfmt_enough_example : (t : List ℕ) × (vprintfmt no_text words 7 0 left ≡ some t)
vprintfmt_enough_example = vprintfmt_enough no_text words 7 0 left (omega arith)

-- "---42|%"
left_padded :
    vprintfmt no_text words 7 0 left ≡ some (b'-' ∷ b'-' ∷ b'-' ∷ b'4' ∷ b'2' ∷ b'|' ∷ b'%' ∷ [])
unfolding vprintfmt digs digit_char
left_padded = refl

-- "%.2s %x" with "abc" and 42.
cut_string :
    vprintfmt no_text words 9 0 (b'%' ∷ b'.' ∷ b'2' ∷ b's' ∷ b' ' ∷ b'%' ∷ b'x' ∷ [])
    ≡ some (b'a' ∷ b'b' ∷ b' ' ∷ b'2' ∷ b'a' ∷ [])
unfolding vprintfmt digs digit_char
cut_string = refl

abbrev waiting : Stdout
waiting = record { buf = b'h' ∷ []; writes = [] }

put_all-output_example :
    (output (put_all (b'i' ∷ b'\n' ∷ b'!' ∷ []) waiting) ≡ b'h' ∷ b'i' ∷ b'\n' ∷ b'!' ∷ [])
    × (length ((put_all (b'i' ∷ b'\n' ∷ b'!' ∷ []) waiting).buf) < 64)
put_all-output_example = put_all-output (b'i' ∷ b'\n' ∷ b'!' ∷ []) waiting (omega arith)
