-- ===== src/Mcall/Queues.antt =====
-- The queues of device requests and of responses, which are linked through the messages:
-- `mcall_respond`, the reading part of `mcall_dev_req`, `mcall_dev_resp` and `io_irq_service` of
-- bbl/mtrap.c.
pub mod Refinement
pub mod Operations
pub mod Service
use lowrisc_kc.Base.{
  ℕ, zero, suc, ◌+◌, ◌-◌, Bool, true, false, not, ◌&&◌, ◌==◌, bit_or, if◌then◌else◌, u8, u64,
}
use lowrisc_kc.Mcall.State.{
  Machine, Outcome, returned, panicked, ◌>>=◌, link, set_payload, next_of, supervisor_paddr_valid,
}

-- HTIF_CMD_READ.
abbrev pub htif_cmd_read : ℕ
htif_cmd_read = 0x00

module _ {D : Type 0} where
  -- The message goes to the end of the response queue.
  unfoldable pub enqueue_response : ℕ → Machine D → Machine D
  unfolding link
  enqueue_response m s =
      let linked =
        if s.device_response_queue_tail == 0
        then record s { device_response_queue_head = m }
        else link s.device_response_queue_tail m s in
      record linked { device_response_queue_tail = m }

  unfoldable pub mcall_respond : ℕ → ℕ → Machine D → Machine D
  unfolding link set_payload enqueue_response
  mcall_respond m resp s =
      let queued = set_payload m resp (enqueue_response m (link m 0 s)) in
      record queued { ssip = true }

  -- A read from the UART waits at the head of the request queue.
  unfoldable pub enqueue_request : ℕ → Machine D → Machine D
  unfolding link
  enqueue_request m s =
      let linked = link m s.device_request_queue_head s in
      record linked {
        irq_enable = 0x01;
        device_request_queue_head = m;
        device_request_queue_size = u64 (s.device_request_queue_size + 1);
      }

  unfoldable pub mcall_dev_resp : Machine D → Machine D × ℕ
  mcall_dev_resp s =
      let m = s.device_response_queue_head in
      if m == 0
      then (s, m)
      else (let next = next_of s m in
          if next == 0
          then (
            record s {
              device_response_queue_head = next;
              device_response_queue_tail = 0;
              ssip = not (s.ipi_pending s.hart_id == 0);
            },
            m,
          )
          else (record s { device_response_queue_head = next }, m))

  unfoldable pub is_read : Machine D → ℕ → Bool
  is_read s m = (s.messages m).dev == 0 && (s.messages m).cmd == htif_cmd_read

  -- The loop over the request queue, on the rounds that are left: the first read and the message
  -- before it, or a panic.
  unfoldable pub find_read : ℕ → ℕ → ℕ → Machine D → Outcome (ℕ × ℕ)
  unfolding is_read supervisor_paddr_valid
  find_read zero prev m s = panicked
  find_read (suc rounds) prev m s =
      if not (supervisor_paddr_valid s m 32) && not s.from_machine_mode
      then panicked
      else elim (is_read s m) [
        | true ↦ returned (prev, m)
        | false ↦ find_read rounds m (next_of s m) s
      ]

  -- `m` leaves the request queue; `prev` is NULL at its head.
  unfoldable pub dequeue_request : ℕ → ℕ → Machine D → Machine D
  unfolding link
  dequeue_request prev m s =
      let next = next_of s m in
      let unlinked =
        if prev == 0 then record s { device_request_queue_head = next } else link prev next s in
      record unlinked { device_request_queue_size = s.device_request_queue_size - 1 }

  -- The read `m` is answered with `ch` and goes from the one queue to the other.
  unfoldable pub serve : ℕ → ℕ → ℕ → Machine D → Machine D
  unfolding set_payload dequeue_request link enqueue_response
  serve ch prev m s =
      let answered = set_payload m (bit_or 0x100 (u8 ch)) s in
      let removed = link m 0 (dequeue_request prev m answered) in
      record (enqueue_response m removed) { ssip = true }

  -- `available` and `ch` are what uart_check_read_irq and uart_read_irq return.
  unfoldable pub io_irq_service : Bool → ℕ → Machine D → Outcome (Machine D)
  unfolding find_read serve
  io_irq_service false ch s = panicked
  io_irq_service true ch s =
      find_read s.device_request_queue_size 0 s.device_request_queue_head s >>= λ found.
      returned (serve ch (found.0) (found.1) s)
