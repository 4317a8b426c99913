-- ===== src/Mcall/State.antt =====
-- The state of the machine calls of bbl/mtrap.c: the messages of bbl/sbi.h in the memory that the
-- supervisor shares, the queues of hls_t of bbl/mtrap.h, and the devices' side.
use lowrisc_kc.Base.{ℕ, ◌+◌, Bool, ◌&&◌, ltb, leb, List, u64}
pub use lowrisc_kc.Base.Outcome.{Outcome, returned, panicked, halted, ◌>>=◌, store}

-- sbi_device_message; `payload` is its field `data`.
pub record Message : Type 0 where
  pub dev : ℕ
  pub cmd : ℕ
  pub payload : ℕ
  pub sbi_private_data : ℕ

-- disk_request_t.
pub record DiskRequest : Type 0 where
  pub addr : ℕ
  pub offset : ℕ
  pub size : ℕ
  pub tag : ℕ

-- What the calls read and write. Memory is four stores that do not overlap: the messages, the disk
-- requests, the names of devices and the data of the disk, the last inside `disk`. Of the control
-- registers there are the bits that the calls set and clear. `ipi_pending` is a word of each hart,
-- `sent` the bytes that the UART was given, `ipis` the harts that were interrupted, latest last.
pub record Machine (D : Type 0) : Type 0 where
  pub messages : ℕ → Message
  pub disk_requests : ℕ → DiskRequest
  pub names : ℕ → List ℕ
  pub device_request_queue_head : ℕ
  pub device_request_queue_size : ℕ
  pub device_response_queue_head : ℕ
  pub device_response_queue_tail : ℕ
  pub hart_id : ℕ
  pub num_harts : ℕ
  pub ipi_pending : ℕ → ℕ
  pub ssip : Bool
  pub stip : Bool
  pub mtie : Bool
  pub mtimecmp : ℕ
  pub irq_enable : ℕ
  pub from_machine_mode : Bool
  pub user_base : ℕ
  pub mem_size : ℕ
  pub sent : List ℕ
  pub ipis : List ℕ
  pub disk : D

-- `m->sbi_private_data = next` and `m->data = value`.
unfoldable pub link : {D : Type 0} → ℕ → ℕ → Machine D → Machine D
link m next s = record s {
  messages = store s.messages m (record (s.messages m) { sbi_private_data = next });
}

unfoldable pub set_payload : {D : Type 0} → ℕ → ℕ → Machine D → Machine D
set_payload m value s = record s {
  messages = store s.messages m (record (s.messages m) { payload = value });
}

abbrev pub next_of : {D : Type 0} → Machine D → ℕ → ℕ
next_of s m = (s.messages m).sbi_private_data

-- supervisor_paddr_valid of bbl/vm.h; `user_base` is `current.first_user_vaddr + current.bias`.
unfoldable pub supervisor_paddr_valid : {D : Type 0} → Machine D → ℕ → ℕ → Bool
supervisor_paddr_valid s start len =
    leb s.user_base start && ltb (u64 (start + len)) s.mem_size && leb start (u64 (start + len))
