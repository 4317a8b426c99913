-- ===== src/Driver/Calls/Reporting.antt =====
-- What a trap leaves on the line of the UART, in driver/syscalls.c.
use lowrisc_kc.Base.{
  ℕ, zero, suc, ◌+◌, ◌≡◌, refl, sym, ap, ap₂, arith, ◌∙◌, false, List, [], ◌∷◌, ◌++◌, some, ◌==◌,
  u8, u32, u64,
}
use lowrisc_kc.Base.Int.{negsuc}
use lowrisc_kc.Base.Outcome.{store}
use lowrisc_kc.Base.Numerals.{numeral}
use lowrisc_kc.Driver.Printing.{printnum, hex_digits}
use lowrisc_kc.Driver.Printing.Numbers.{printnum-numeral}
use lowrisc_kc.Driver.Uart.Sending.{IsUart, uart_send_lem, uart_send_buf_lem}
use lowrisc_kc.Driver.Calls.{
  Platform, Runtime, resumed, exited, exit_message, report_line, handle_frontend_syscall,
  tohost_exit, reports, reported, reads_stats, resume, system_call, handle_trap, user_ecall,
}
use mathlib.Core.List.{map, append-nil, append_assoc, map-append}

-- A line of a report: a name and the lower 32 bits of a word in hexadecimal.
abbrev pub shown : List ℕ → ℕ → List ℕ
shown name value = name ++ b'=' ∷ numeral 63 16 (u32 value) ++ b'\n' ∷ []

-- The names in the report of a trap.
abbrev pub mcause_name : List ℕ
mcause_name = b'm' ∷ b'c' ∷ b'a' ∷ b'u' ∷ b's' ∷ b'e' ∷ []

abbrev pub mepc_name : List ℕ
mepc_name = b'm' ∷ b'e' ∷ b'p' ∷ b'c' ∷ []

abbrev pub mbadaddr_name : List ℕ
mbadaddr_name = b'm' ∷ b'b' ∷ b'a' ∷ b'd' ∷ b'a' ∷ b'd' ∷ b'd' ∷ b'r' ∷ []

abbrev pub einsn_name : List ℕ
einsn_name = b'e' ∷ b'i' ∷ b'n' ∷ b's' ∷ b'n' ∷ []

abbrev pub sp_name : List ℕ
sp_name = b's' ∷ b'p' ∷ []

abbrev pub tp_name : List ℕ
tp_name = b't' ∷ b'p' ∷ []

abbrev pub report : ℕ → ℕ → ℕ → ℕ → ℕ → ℕ → List (List ℕ × ℕ)
report cause epc badaddr insn sp tp =
    (mcause_name, cause)
    ∷ (mepc_name, epc)
    ∷ (mbadaddr_name, badaddr)
    ∷ (einsn_name, insn)
    ∷ (sp_name, sp)
    ∷ (tp_name, tp)
    ∷ []

-- "error! exit(0x0000000000000539)" and the end of the line.
abbrev pub exit_text : List ℕ
exit_text =
    b'e' ∷ b'r' ∷ b'r' ∷ b'o' ∷ b'r' ∷ b'!' ∷ b' ' ∷ b'e' ∷ b'x' ∷ b'i' ∷ b't' ∷ b'(' ∷ b'0' ∷ b'x'
    ∷ b'0' ∷ b'0' ∷ b'0' ∷ b'0' ∷ b'0' ∷ b'0' ∷ b'0' ∷ b'0' ∷ b'0' ∷ b'0' ∷ b'0' ∷ b'0' ∷ b'0'
    ∷ b'5' ∷ b'3' ∷ b'9' ∷ b')' ∷ b'\n' ∷ []

exit_message_lem : exit_message 1337 ≡ exit_text
unfolding exit_message hex_digits
exit_message_lem = refl

abbrev AllShown : List (List ℕ × ℕ) → Type 0
AllShown [] = Unit
AllShown ((name, value) ∷ rest) = (report_line name value ≡ some (shown name value)) × AllShown rest

abbrev pub text_of : List (List ℕ × ℕ) → List ℕ
text_of [] = []
text_of ((name, value) ∷ rest) = shown name value ++ text_of rest

-- What the formatter makes of a word is its numeral.
shown_numeral :
    (name : List ℕ) (value : ℕ)
    → some (name ++ b'=' ∷ printnum (u32 value) 16 (negsuc 0) b'0' ++ b'\n' ∷ [])
      ≡ some (shown name value)
shown_numeral name value =
    ap (λ (t : List ℕ). some (name ++ b'=' ∷ t ++ b'\n' ∷ []))
      (printnum-numeral (u32 value) 16 b'0' (omega arith) (omega arith) (omega arith))

-- The bytes at an address.
abbrev pub block : (ℕ → ℕ) → ℕ → ℕ → List ℕ
block byte s zero = []
block byte s (suc left) = byte s ∷ block byte (u64 (s + 1)) left

-- Two texts that go onto a line one after the other.
joined : (l m n a b : List ℕ) → m ≡ l ++ map u8 a → n ≡ m ++ map u8 b → n ≡ l ++ map u8 (a ++ b)
joined l m n a b h k =
    k
    ∙ ap (λ (x : List ℕ). x ++ map u8 b) h
    ∙ append_assoc l (map u8 a) (map u8 b)
    ∙ ap (λ (x : List ℕ). l ++ x) (sym (map-append u8 a b))

module _ {D : Type 0} (p : Platform D) (rounds : ℕ) (line : D → List ℕ)
    (uart : IsUart p.uart rounds line) (byte word : ℕ → ℕ) where
  reported-AllShown :
      (cause epc : ℕ) (regs : ℕ → ℕ) → AllShown (reported p rounds byte word cause epc regs)
  unfolding reported report_line
  reported-AllShown cause epc regs = (
    shown_numeral mcause_name cause,
    (
      shown_numeral mepc_name epc,
      (
        shown_numeral mbadaddr_name p.mbadaddr,
        (
          shown_numeral einsn_name (word epc),
          (shown_numeral sp_name (regs 2), (shown_numeral tp_name (regs 4), tt)),
        ),
      ),
    ),
  )

  reported_lem :
      (cause epc : ℕ) (regs : ℕ → ℕ)
      → reported p rounds byte word cause epc regs
        ≡ report cause epc p.mbadaddr (word epc) (regs 2) (regs 4)
  unfolding reported
  reported_lem cause epc regs = refl

  reports-line :
      (l : List (List ℕ × ℕ)) (d : D)
      → AllShown l
      → (e : D) × (reports p rounds byte word l d ≡ some e)
        × (line e ≡ line d ++ map u8 (text_of l))
  unfolding reports
  reports-line [] d h = (d, refl, sym (append-nil (line d)))
  reports-line ((name, value) ∷ rest) d (h, hs) =
      let (e, w, m) = uart_send_buf_lem p.uart rounds line uart (shown name value) d in
      let (f, w', m') = reports-line rest e hs in
      (
        f,
        rw (h, w, reports) w',
        joined (line d) (line e) (line f) (shown name value) (text_of rest) m m',
      )

  tohost_exit-line :
      (code : ℕ) (s : Runtime D)
      → (code == 0) ≡ false
      → (t : Runtime D) × (tohost_exit p rounds byte word code s ≡ some (exited t))
        × (line t.device ≡ line s.device ++ map u8 (exit_message code))
  unfolding tohost_exit
  tohost_exit-line code s h =
      let (e, w, m) = uart_send_buf_lem p.uart rounds line uart (exit_message code) s.device in
      (record s { device = e }, rw (h, w) refl, m)

  -- A trap that is neither a system call nor an access of `stats` sends its report, which has the
  -- cause, the pc, the bad address, the instruction, sp and tp, the lower 32 bits of each in
  -- hexadecimal, then the message of the exit code 1337, and the machine stops.
  pub handle_trap-reports :
      (cause epc : ℕ) (regs : ℕ → ℕ) (s : Runtime D)
      → (cause == user_ecall) ≡ false
      → reads_stats p rounds byte word cause epc ≡ false
      → (t : Runtime D) × (handle_trap p rounds byte word cause epc regs s ≡ some (exited t))
        × (line t.device
            ≡ line s.device
              ++ map u8
                  (text_of (report cause epc p.mbadaddr (word epc) (regs 2) (regs 4)) ++ exit_text))
  unfolding handle_trap
  handle_trap-reports cause epc regs s h k =
      let l = reported p rounds byte word cause epc regs in
      let (d, w, m) = reports-line l s.device (reported-AllShown cause epc regs) in
      let (t, w', m') = tohost_exit-line 1337 (record s { device = d }) refl in
      (
        t,
        rw (k, h, w) w',
        joined (line s.device) (line d) (line t.device) (text_of l) (exit_message 1337) m m'
            ∙ ap₂ (λ (r : List (List ℕ × ℕ)) (x : List ℕ). line s.device ++ map u8 (text_of r ++ x))
                (reported_lem cause epc regs) exit_message_lem,
      )

  frontend-line :
      (left a : ℕ) (d : D)
      → (e : D) × (handle_frontend_syscall p rounds byte word a left d ≡ some e)
        × (line e ≡ line d ++ map u8 (block byte a left))
  unfolding handle_frontend_syscall
  frontend-line zero a d = (d, refl, sym (append-nil (line d)))
  frontend-line (suc left) a d =
      let (e, w, m) = uart_send_lem p.uart rounds line uart (byte a) d in
      let (f, w', m') = frontend-line left (u64 (a + 1)) e in
      (
        f,
        rw (w, handle_frontend_syscall) w',
        joined (line d) (line e) (line f) (byte a ∷ []) (block byte (u64 (a + 1)) left) m m',
      )

  -- The system call `write` puts the bytes at a1, as many as a2 says, on the line, and resumes
  -- behind the ecall with 0 in a0, the other registers and the counters as they were.
  pub handle_trap-writes :
      (epc : ℕ) (regs : ℕ → ℕ) (s : Runtime D)
      → regs 17 ≡ 64
      → (t : Runtime D) × (handle_trap p rounds byte word user_ecall epc regs s
          ≡ some (resumed t (store regs 10 0) (u64 (epc + 4))))
        × (line t.device ≡ line s.device ++ map u8 (block byte (regs 11) (regs 12)))
        × (t.counters ≡ s.counters)
  unfolding handle_trap reads_stats system_call resume
  handle_trap-writes epc regs s h =
      let (e, w, m) = frontend-line (regs 12) (regs 11) s.device in
      (record s { device = e }, rw (h, w) refl, m, refl)
