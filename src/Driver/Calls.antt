-- ===== src/Driver/Calls.antt =====
-- The trap handler of driver/syscalls.c, and what it does for each system call. The routines of
-- driver/crt.S and the instructions of the inline assembly are an interface. Memory is read only:
-- `byte` has its bytes, `word` its 32-bit words. A loop without a bound runs for at most `rounds`
-- reads of the UART.
pub mod Reporting
mod Tests
use lowrisc_kc.Base.{
  ℕ, zero, suc, ◌+◌, ◌-◌, ◌^◌, Bool, true, false, not, ◌&&◌, ◌||◌, List, [], ◌∷◌, ◌++◌, Option,
  none, some, length, bit_and, ◌==◌, if◌then◌else◌, u32, u64,
}
use lowrisc_kc.Base.Outcome.{store}
use lowrisc_kc.Driver.Device.{Device}
use lowrisc_kc.Driver.Printing.{vprintfmt, hex_digits}
use lowrisc_kc.Driver.Uart.{uart_send, uart_send_buf}
use mathlib.Core.Option

abbrev pub sys_exit : ℕ
sys_exit = 93

abbrev pub sys_stats : ℕ
sys_stats = 1234

abbrev pub sys_soft_reset : ℕ
sys_soft_reset = 617

abbrev pub sys_set_iobase : ℕ
sys_set_iobase = 0x12200

abbrev pub sys_set_membase : ℕ
sys_set_membase = 0x2100

abbrev pub num_counters : ℕ
num_counters = 18

abbrev pub illegal_instruction : ℕ
illegal_instruction = 0x2

abbrev pub user_ecall : ℕ
user_ecall = 0x8

-- `read_counter` reads the counter with an index, in the order of handle_stats.
pub record Platform (D : Type 0) : Type 0 where
  pub uart : Device D
  pub read_counter : ℕ → D → D × ℕ
  pub set_stats : D → D
  pub clear_stats : D → D
  pub asm_set_iobase : ℕ → ℕ → ℕ → D → D
  pub asm_update_iospace : D → D
  pub asm_set_membase : ℕ → ℕ → ℕ → ℕ → D → D
  pub asm_update_memspace : D → D
  pub mbadaddr : ℕ
  -- The code of the instruction that reads `stats` into a0.
  pub csr_insn : ℕ

-- `counters`, and which of `counter_names` have been set.
pub record Runtime (D : Type 0) : Type 0 where
  pub device : D
  pub counters : ℕ → ℕ
  pub named : ℕ → Bool

-- A trap resumes at an address with its registers, or the machine stops: in the loop of tohost_exit,
-- or by asm_soft_reset.
pub data Handled (D : Type 0) : Type 0 where
  resumed : Runtime D → (ℕ → ℕ) → ℕ → Handled D
  exited : Runtime D → Handled D
  reset : Runtime D → Handled D

-- The string that tohost_exit makes of a code that is not 0.
unfoldable pub exit_message : ℕ → List ℕ
exit_message code =
    b'e'
    ∷ b'r'
    ∷ b'r'
    ∷ b'o'
    ∷ b'r'
    ∷ b'!'
    ∷ b' '
    ∷ b'e'
    ∷ b'x'
    ∷ b'i'
    ∷ b't'
    ∷ b'('
    ∷ b'0'
    ∷ b'x'
    ∷ hex_digits 16 code (b')' ∷ b'\n' ∷ [])

-- `sprintf(trap_rpt_buf, "name=%0x\n", value)`.
unfoldable pub report_line : List ℕ → ℕ → Option (List ℕ)
unfolding vprintfmt
report_line name value =
    let fmt = name ++ b'=' ∷ b'%' ∷ b'0' ∷ b'x' ∷ b'\n' ∷ [] in
    vprintfmt (λ a. []) (λ a. value) (suc (length fmt)) 0 fmt

module _ {D : Type 0} (p : Platform D) where
  -- READ_CTR for the counters from `i`, `left` of them.
  unfoldable pub read_counters : ℕ → ℕ → Bool → Runtime D → Runtime D
  read_counters zero i enable s = s
  read_counters (suc left) i enable s =
      let r = p.read_counter i s.device in
      read_counters left (i + 1) enable (record s {
        device = r.0;
        counters = store s.counters i (if enable then r.1 else u64 (r.1 + 2 ^ 64 - s.counters i));
        named = if enable then s.named else store s.named i true;
      })

  -- The result is 0.
  unfoldable pub handle_stats : Bool → Runtime D → Runtime D
  unfolding read_counters
  handle_stats enable s =
      let t =
        read_counters num_counters 0 enable
          (if enable then record s { device = p.set_stats s.device } else s) in
      if enable then t else record t { device = p.clear_stats t.device }

  unfoldable pub set_iobase : (ℕ → ℕ) → D → D
  set_iobase regs d =
      let i = bit_and (regs 17) 0x7 in
      if (i == 0) || (i == 1) || (i == 2) || (i == 3)
      then p.asm_set_iobase i (regs 10) (regs 11) d
      else p.asm_update_iospace d

  unfoldable pub set_membase : (ℕ → ℕ) → D → D
  set_membase regs d =
      let i = bit_and (regs 17) 0x7 in
      if (i == 0) || (i == 1) || (i == 2) || (i == 3)
      then p.asm_set_membase i (regs 10) (regs 11) (regs 12) d
      else p.asm_update_memspace d

module _ {D : Type 0} (p : Platform D) (rounds : ℕ) (byte word : ℕ → ℕ) where
  -- The bytes at `s`, as many as are left.
  unfoldable pub handle_frontend_syscall : ℕ → ℕ → D → Option D
  unfolding uart_send
  handle_frontend_syscall s zero d = some d
  handle_frontend_syscall s (suc left) d = elim (uart_send p.uart rounds (byte s) d) [
    | none ↦ none
    | some e ↦ handle_frontend_syscall (u64 (s + 1)) left e
  ]

  unfoldable pub tohost_exit : ℕ → Runtime D → Option (Handled D)
  unfolding exit_message uart_send_buf
  tohost_exit code s =
      if code == 0
      then some (exited s)
      else Option.map (λ d. exited (record s { device = d }))
          (uart_send_buf p.uart rounds (exit_message code) s.device)

  unfoldable pub reports : List (List ℕ × ℕ) → D → Option D
  unfolding report_line uart_send_buf
  reports [] d = some d
  reports ((name, value) ∷ rest) d = elim (report_line name value) [
    | none ↦ none
    | some t ↦ elim (uart_send_buf p.uart rounds t d) [ none ↦ none | some e ↦ reports rest e ]
  ]

  -- The names and words that the report of a trap shows.
  unfoldable pub reported : ℕ → ℕ → (ℕ → ℕ) → List (List ℕ × ℕ)
  reported cause epc regs =
      (b'm' ∷ b'c' ∷ b'a' ∷ b'u' ∷ b's' ∷ b'e' ∷ [], cause)
      ∷ (b'm' ∷ b'e' ∷ b'p' ∷ b'c' ∷ [], epc)
      ∷ (b'm' ∷ b'b' ∷ b'a' ∷ b'd' ∷ b'a' ∷ b'd' ∷ b'd' ∷ b'r' ∷ [], p.mbadaddr)
      ∷ (b'e' ∷ b'i' ∷ b'n' ∷ b's' ∷ b'n' ∷ [], word epc)
      ∷ (b's' ∷ b'p' ∷ [], regs 2)
      ∷ (b't' ∷ b'p' ∷ [], regs 4)
      ∷ []

  -- The instruction has the bits of the one that reads `stats`.
  unfoldable pub reads_stats : ℕ → ℕ → Bool
  reads_stats cause epc =
      (cause == illegal_instruction) && (bit_and (word epc) p.csr_insn == p.csr_insn)

  -- `regs[10] = sys_ret; return epc+4;`, with the result 0 of every system call.
  unfoldable pub resume : ℕ → (ℕ → ℕ) → Runtime D → Handled D
  resume epc regs s = resumed s (store regs 10 0) (u64 (epc + 4))

  unfoldable pub system_call : ℕ → (ℕ → ℕ) → Runtime D → Option (Handled D)
  unfolding handle_stats set_iobase set_membase handle_frontend_syscall tohost_exit resume
  system_call epc regs s =
      if bit_and (regs 17) sys_set_iobase == sys_set_iobase
      then some (resume epc regs (record s { device = set_iobase p regs s.device }))
      else if bit_and (regs 17) sys_set_membase == sys_set_membase
      then some (resume epc regs (record s { device = set_membase p regs s.device }))
      else if regs 17 == sys_exit
      then tohost_exit (regs 10) s
      else if regs 17 == sys_stats
      then some (resume epc regs (handle_stats p (not (u32 (regs 10) == 0)) s))
      else if regs 17 == sys_soft_reset
      then some (reset s)
      else Option.map (λ d. resume epc regs (record s { device = d }))
          (handle_frontend_syscall (regs 11) (regs 12) s.device)

  unfoldable pub handle_trap : ℕ → ℕ → (ℕ → ℕ) → Runtime D → Option (Handled D)
  unfolding reads_stats reported reports tohost_exit resume system_call
  handle_trap cause epc regs s =
      if reads_stats cause epc
      then some (resume epc regs s)
      else if cause == user_ecall
      then system_call epc regs s
      else elim (reports (reported cause epc regs) s.device) [
        | none ↦ none
        | some d ↦ tohost_exit 1337 (record s { device = d })
      ]
