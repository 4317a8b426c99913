-- ===== src/Driver/Calls/Tests.antt =====
-- Traps on a UART that is always ready, whose state is what it has sent.
use lowrisc_kc.Base.{ℕ, ◌+◌, ◌≡◌, refl, Bool, List, [], ◌∷◌, ◌++◌, some, ◌==◌, if◌then◌else◌, u8}
use lowrisc_kc.Base.Outcome.{store}
use lowrisc_kc.Driver.Device.{Device, wait}
use lowrisc_kc.Driver.Uart.{all_sent, uart_thr}
use lowrisc_kc.Driver.Uart.Sending.{IsUart}
use lowrisc_kc.Driver.Calls.{
  Platform, Runtime, resumed, exited, handle_trap, reads_stats, user_ecall,
}
use lowrisc_kc.Driver.Calls.Reporting.{
  report, exit_text, text_of, handle_trap-reports, handle_trap-writes,
}
use mathlib.Core.List.{map}

abbrev wire : Device (List ℕ)
wire = record {
  read = λ reg d. (d, 0x60);
  write = λ reg v d. if reg == uart_thr then d ++ u8 v ∷ [] else d;
}

wire-IsUart : IsUart wire 1 (λ d. d)
unfolding wait all_sent
wire-IsUart = record { line-write = λ v d. refl; ready = λ d. (d, refl, refl) }

abbrev platform : Platform (List ℕ)
platform = record {
  uart = wire;
  read_counter = λ i d. (d, 7 + i);
  set_stats = λ d. d;
  clear_stats = λ d. d;
  mbadaddr = 0x1234;
  asm_set_iobase = λ i base mask d. d;
  asm_update_iospace = λ d. d;
  asm_set_membase = λ i cbase mask pbase d. d;
  asm_update_memspace = λ d. d;
  csr_insn = 0x0c002573;
}

abbrev idle : Runtime (List ℕ)
idle = record { device = b'>' ∷ []; counters = λ i. 0; named = λ i. Bool.false }

abbrev letters : ℕ → ℕ
letters a = b'a' + a

-- write(1, 2, 3)
abbrev write_regs : ℕ → ℕ
write_regs r = if r == 17 then 64 else if r == 12 then 3 else if r == 11 then 2 else 1

handle_trap-writes_example :
    (t : Runtime (List ℕ)) × (handle_trap platform 1 letters (λ a. 0) user_ecall 100 write_regs idle
      ≡ some (resumed t (store write_regs 10 0) 104))
    × (t.device ≡ b'>' ∷ b'c' ∷ b'd' ∷ b'e' ∷ [])
    × (t.counters ≡ (λ i. 0))
handle_trap-writes_example =
    handle_trap-writes platform 1 (λ d. d) wire-IsUart letters (λ a. 0) 100 write_regs idle refl

handle_trap-reports_example :
    (t : Runtime (List ℕ)) × (handle_trap platform 1 letters (λ a. 0) 5 100 write_regs idle
      ≡ some (exited t))
    × (t.device ≡ b'>' ∷ map u8 (text_of (report 5 100 0x1234 0 1 1) ++ exit_text))
unfolding reads_stats
handle_trap-reports_example =
    handle_trap-reports platform 1 (λ d. d) wire-IsUart letters (λ a. 0) 5 100 write_regs idle refl
      refl
