-- ===== src/Mcall/Calls.antt =====
-- The other machine calls and their dispatch, `mcall_trap` of bbl/mtrap.c. The ramdisk, which is a
-- file, is an interface.
use lowrisc_kc.Base.{
  ℕ, ◌+◌, ◌-◌, ◌/◌, ◌%◌, ◌^◌, true, false, not, ◌&&◌, ◌||◌, Option, none, some, List, [], ◌∷◌, ◌++◌,
  length, ltb, leb, ◌==◌, bit_or, if◌then◌else◌, u8, u64,
}
use lowrisc_kc.Mcall.State.{
  Machine, Outcome, returned, panicked, halted, ◌>>=◌, store, supervisor_paddr_valid,
}
use lowrisc_kc.Mcall.Queues.{htif_cmd_read, mcall_respond, enqueue_request, mcall_dev_resp}

-- f_stat and file_open of "root.bin", file_pread and file_pwrite on it at an address of memory, and
-- the name that snprintf makes of the file's size. `none` is an error.
pub record Ramdisk (D : Type 0) : Type 0 where
  pub f_stat : D → Option ℕ
  pub file_open : D → Option D
  pub file_pread : ℕ → ℕ → ℕ → D → D × ℕ
  pub file_pwrite : ℕ → ℕ → ℕ → D → D × ℕ
  pub size_name : ℕ → List ℕ

abbrev pub htif_cmd_write : ℕ
htif_cmd_write = 0x01

abbrev pub htif_cmd_identify : ℕ
htif_cmd_identify = 0xff

abbrev pub htif_max_cmd : ℕ
htif_max_cmd = 256

abbrev pub htif_max_id : ℕ
htif_max_id = 64

-- -EFAULT, -EINVAL and -ENOSYS.
abbrev pub efault : ℕ
efault = 2 ^ 64 - 14

abbrev pub einval : ℕ
einval = 2 ^ 64 - 22

abbrev pub enosys : ℕ
enosys = 2 ^ 64 - 38

-- "bcd".
abbrev pub bcd : List ℕ
bcd = b'b' ∷ b'c' ∷ b'd' ∷ []

-- A call's machine and the value that it returns.
abbrev pub Reply : Type 0 → Type 0
Reply D = Outcome (Machine D × ℕ)

module _ {D : Type 0} where
  unfoldable pub handle_identify : ℕ → List ℕ → Machine D → Outcome (Machine D)
  handle_identify payload dev_name s =
      let what = payload % htif_max_cmd in
      let addr = payload / htif_max_cmd in
      if not (addr % htif_max_id == 0)
      then panicked
      else if ltb htif_max_id (length dev_name)
      then panicked
      else returned (record s {
        names = store s.names addr (if what == htif_cmd_identify then dev_name else []);
      })

  unfoldable pub identify : ℕ → List ℕ → Machine D → Reply D
  unfolding handle_identify mcall_respond
  identify m dev_name s =
      handle_identify ((s.messages m).payload) dev_name s >>= λ t. returned (mcall_respond m 1 t, 0)

  unfoldable pub mcall_console_putchar : ℕ → Machine D → Machine D × ℕ
  mcall_console_putchar ch s = (record s { sent = s.sent ++ u8 ch ∷ [] }, 0)

  -- Device 0.
  unfoldable pub bcd_request : ℕ → Machine D → Reply D
  unfolding identify enqueue_request mcall_respond mcall_console_putchar
  bcd_request m s =
      let cmd = (s.messages m).cmd in
      let payload = (s.messages m).payload in
      if cmd == htif_cmd_identify
      then identify m bcd s
      else if cmd == htif_cmd_read
      then returned (enqueue_request m s, 0)
      else if cmd == htif_cmd_write
      then returned
          (mcall_respond m (bit_or 0x100 (u8 payload)) ((mcall_console_putchar payload s).0), 0)
      else panicked

  -- Any other device but the disk.
  unfoldable pub unknown_request : ℕ → Machine D → Reply D
  unfolding identify
  unknown_request m s =
      if (s.messages m).cmd == htif_cmd_identify then identify m [] s else panicked

  unfoldable pub mcall_send_ipi : ℕ → Machine D → Machine D × ℕ
  mcall_send_ipi recipient s =
      if leb s.num_harts recipient
      then (s, 2 ^ 64 - 1)
      else (let pending = record s { ipi_pending = store s.ipi_pending recipient 1 } in
          if s.ipi_pending recipient == 0
          then (record pending { ipis = s.ipis ++ recipient ∷ [] }, 0)
          else (pending, 0))

  unfoldable pub mcall_clear_ipi : Machine D → Machine D × ℕ
  mcall_clear_ipi s =
      let cleared = if s.device_response_queue_head == 0 then record s { ssip = false } else s in
      (record cleared { ipi_pending = store s.ipi_pending s.hart_id 0 }, s.ipi_pending s.hart_id)

  unfoldable pub mcall_set_timer : ℕ → Machine D → Machine D × ℕ
  mcall_set_timer when s = (record s { mtimecmp = when; stip = false; mtie = true }, 0)

module _ {D : Type 0} (ramdisk : Ramdisk D) where
  -- Device 1: the name, once the file is there and open.
  unfoldable pub identify_opened : ℕ → ℕ → Machine D → Option D → Reply D
  unfolding identify
  identify_opened m size s none = identify m [] s
  identify_opened m size s (some opened) =
      identify m (ramdisk.size_name size) (record s { disk = opened })

  unfoldable pub identify_found : ℕ → Machine D → Option ℕ → Reply D
  unfolding identify identify_opened
  identify_found m s none = identify m [] s
  identify_found m s (some size) = identify_opened m size s (ramdisk.file_open s.disk)

  unfoldable pub identify_disk : ℕ → Machine D → Reply D
  unfolding identify_found
  identify_disk m s = identify_found m s (ramdisk.f_stat s.disk)

  -- A transfer and its answer, the tag of the request; a short transfer panics.
  unfoldable pub transfer : (ℕ → ℕ → ℕ → D → D × ℕ) → ℕ → Machine D → Reply D
  unfolding mcall_respond
  transfer move m s =
      let req = s.disk_requests ((s.messages m).payload) in
      let moved = move req.addr req.size req.offset s.disk in
      if moved.1 == req.size
      then returned (mcall_respond m req.tag (record s { disk = moved.0 }), 0)
      else panicked

  unfoldable pub disk_request : ℕ → Machine D → Reply D
  unfolding identify_disk transfer
  disk_request m s =
      let cmd = (s.messages m).cmd in
      if cmd == htif_cmd_identify
      then identify_disk m s
      else if cmd == htif_cmd_read
      then transfer ramdisk.file_pread m s
      else if cmd == htif_cmd_write
      then transfer ramdisk.file_pwrite m s
      else panicked

  unfoldable pub mcall_dev_req : ℕ → Machine D → Reply D
  unfolding supervisor_paddr_valid bcd_request disk_request unknown_request
  mcall_dev_req m s =
      let msg = s.messages m in
      if not (supervisor_paddr_valid s m 32) && not s.from_machine_mode
      then returned (s, efault)
      else if ltb 0xff msg.dev || ltb 0xff msg.cmd || ltb 0x0000ffffffffffff msg.payload
      then returned (s, einval)
      else if msg.dev == 0
      then bcd_request m s
      else if msg.dev == 1
      then disk_request m s
      else unknown_request m s

  -- The switch of mcall_trap, on regs[17] with regs[10].
  unfoldable pub mcall : ℕ → ℕ → Machine D → Reply D
  unfolding mcall_console_putchar mcall_dev_req mcall_dev_resp mcall_send_ipi mcall_clear_ipi
      mcall_set_timer
  mcall n arg0 s =
      if n == 0
      then returned (s, s.hart_id)
      else if n == 1
      then returned (mcall_console_putchar arg0 s)
      else if n == 2
      then mcall_dev_req arg0 s
      else if n == 3
      then returned (mcall_dev_resp s)
      else if n == 4
      then returned (mcall_send_ipi arg0 s)
      else if n == 5
      then returned (mcall_clear_ipi s)
      else if n == 6
      then halted
      else if n == 7
      then returned (mcall_set_timer arg0 s)
      else returned (s, enosys)

  -- The registers and mepc with the machine.
  unfoldable pub mcall_trap : (ℕ → ℕ) → ℕ → Machine D → Outcome (Machine D × (ℕ → ℕ) × ℕ)
  unfolding mcall
  mcall_trap regs mepc s =
      mcall (regs 17) (regs 10) s >>= λ r. returned (r.0, store regs 10 (r.1), u64 (mepc + 4))
