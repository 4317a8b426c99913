-- ===== src/Mcall/Requests/Meaning.antt =====
-- What `mcall_dev_req` of bbl/mtrap.c is to do with a message: which messages are refused, which
-- are answered and with what, which wait, and for which it panics.
use lowrisc_kc.Base.{
  ℕ, ◌+◌, ◌<◌, ◌≤◌, ◌%◌, ◌/◌, ◌^◌, ◌≡◌, ◌≢◌, ◌⊎◌, true, false, none, some, List, [], ◌∷◌, ◌++◌,
  length, bit_or, u8, arith,
}
use lowrisc_kc.Mcall.State.{Machine, returned, panicked, halted, supervisor_paddr_valid}
use lowrisc_kc.Mcall.Queues.Refinement.{IsQueued}
use lowrisc_kc.Mcall.Calls.{Ramdisk, Reply, efault, einval}

module _ {D : Type 0} (s : Machine D) (m : ℕ) where
  -- The 32 bytes of the message lie in the memory of the supervisor.
  abbrev pub InMemory : Type 0
  InMemory = (s.user_base ≤ m) × (m + 32 < s.mem_size) × (m + 32 < 2 ^ 64)

  abbrev pub IsAccessible : Type 0
  IsAccessible = InMemory ⊎ (s.from_machine_mode ≡ true)

  abbrev pub IsInaccessible : Type 0
  IsInaccessible = ¬ InMemory × (s.from_machine_mode ≡ false)

  abbrev pub IsWellFormed : Type 0
  IsWellFormed =
      ((s.messages m).dev < 256) × ((s.messages m).cmd < 256) × ((s.messages m).payload < 2 ^ 48)

  abbrev pub IsMalformed : Type 0
  IsMalformed =
      (256 ≤ (s.messages m).dev) ⊎ (256 ≤ (s.messages m).cmd) ⊎ (2 ^ 48 ≤ (s.messages m).payload)

  pub InMemory_of : m < 2 ^ 64 → supervisor_paddr_valid s m 32 ≡ true → InMemory
  unfolding supervisor_paddr_valid
  InMemory_of b h = ground arith

  pub not-InMemory_of : supervisor_paddr_valid s m 32 ≡ false → ¬ InMemory
  unfolding supervisor_paddr_valid
  not-InMemory_of h k = ground arith

module _ {D : Type 0} (ramdisk : Ramdisk D) (s : Machine D) (m : ℕ) where
  -- A name for the device: "bcd", that of the disk once its file is there and open, or none.
  unfoldable pub disk_name : List ℕ
  disk_name = elim (ramdisk.f_stat s.disk) [
    | none ↦ []
    | some size ↦ elim (ramdisk.file_open s.disk) [ none ↦ [] | some d ↦ ramdisk.size_name size ]
  ]

  pub data IsName : List ℕ → Type 0 where
    console : (s.messages m).dev ≡ 0 → IsName (b'b' ∷ b'c' ∷ b'd' ∷ [])
    disk : (s.messages m).dev ≡ 1 → IsName disk_name
    other : (name : List ℕ) → 2 ≤ (s.messages m).dev → name ≡ [] → IsName name

  -- A read or a write of the disk as the request at the payload says, and what it moves.
  abbrev pub read_size : ℕ
  read_size =
      let req = s.disk_requests ((s.messages m).payload) in
      (ramdisk.file_pread req.addr req.size req.offset s.disk).1

  abbrev pub write_size : ℕ
  write_size =
      let req = s.disk_requests ((s.messages m).payload) in
      (ramdisk.file_pwrite req.addr req.size req.offset s.disk).1

  abbrev pub wanted_size : ℕ
  wanted_size = (s.disk_requests ((s.messages m).payload)).size

  -- The answers: 1 to an identification whose buffer is aligned to 64 bytes and whose name fits, the
  -- byte with 0x100 to a write to the console, the tag of the request to a whole transfer.
  pub data Answers : ℕ → Type 0 where
    identified :
        (name : List ℕ)
        → (s.messages m).cmd ≡ 255
        → IsName name
        → (s.messages m).payload / 256 % 64 ≡ 0
        → length name ≤ 64
        → Answers 1
    written :
        (s.messages m).dev ≡ 0
        → (s.messages m).cmd ≡ 1
        → Answers (bit_or 0x100 (u8 (s.messages m).payload))
    disk_read :
        (s.messages m).dev ≡ 1
        → (s.messages m).cmd ≡ 0
        → read_size ≡ wanted_size
        → Answers (s.disk_requests ((s.messages m).payload)).tag
    disk_written :
        (s.messages m).dev ≡ 1
        → (s.messages m).cmd ≡ 1
        → write_size ≡ wanted_size
        → Answers (s.disk_requests ((s.messages m).payload)).tag

  -- What is not supported: a buffer that is not aligned or a name that is too long, a transfer that
  -- comes short, and every other command.
  pub data IsUnsupported : Type 0 where
    unaligned : (s.messages m).cmd ≡ 255 → (s.messages m).payload / 256 % 64 ≢ 0 → IsUnsupported
    too_long :
        (name : List ℕ) → (s.messages m).cmd ≡ 255 → IsName name → 64 < length name → IsUnsupported
    short_read :
        (s.messages m).dev ≡ 1 → (s.messages m).cmd ≡ 0 → read_size ≢ wanted_size → IsUnsupported
    short_write :
        (s.messages m).dev ≡ 1 → (s.messages m).cmd ≡ 1 → write_size ≢ wanted_size → IsUnsupported
    unknown_command :
        (s.messages m).cmd ≢ 255 → (s.messages m).cmd ≢ 0 → (s.messages m).cmd ≢ 1 → IsUnsupported
    unknown_device : 2 ≤ (s.messages m).dev → (s.messages m).cmd ≢ 255 → IsUnsupported

  -- The result for a message: refused with an error and nothing changed, answered and the last
  -- response, the first request, or a panic.
  abbrev pub IsPlaced : List ℕ → List ℕ → Reply D → Type 0
  IsPlaced rs xs (returned (t, v)) =
      ((v ≡ efault) × IsInaccessible s m × (t ≡ s))
      ⊎ ((v ≡ einval) × IsAccessible s m × IsMalformed s m × (t ≡ s))
      ⊎ ((v ≡ 0)
          × IsAccessible s m
          × IsWellFormed s m
          × Answers ((t.messages m).payload)
          × IsQueued t rs (xs ++ m ∷ []))
      ⊎ ((v ≡ 0)
          × IsAccessible s m
          × IsWellFormed s m
          × ((s.messages m).dev ≡ 0)
          × ((s.messages m).cmd ≡ 0)
          × IsQueued t (m ∷ rs) xs)
  IsPlaced rs xs panicked = IsAccessible s m × IsWellFormed s m × IsUnsupported
  IsPlaced rs xs halted = ⊥
