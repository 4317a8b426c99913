-- ===== src/Mcall/Tests.antt =====
-- A machine with two requests, and the theorems on its queues.
use lowrisc_kc.Base.{
  ℕ, ◌⊎◌, inl, List, ◌∷◌, ◌≡◌, refl, Bool, true, false, not, ◌&&◌, none, [], ◌==◌, if◌then◌else◌,
  arith,
}
use lowrisc_kc.Mcall.Traps.{Outside, FirstIn, trap_from_machine_mode, trap_from_machine_mode-access}
use lowrisc_kc.Mcall.State.{Machine, returned, panicked, store, supervisor_paddr_valid}
use lowrisc_kc.Mcall.Queues.{
  enqueue_request, mcall_respond, mcall_dev_resp, is_read, serve, io_irq_service,
}
use lowrisc_kc.Mcall.Queues.Refinement.{IsQueued}
use lowrisc_kc.Mcall.Queues.Operations.{
  enqueue_request-IsQueued, mcall_respond-IsQueued, mcall_dev_resp-IsQueued,
}
use lowrisc_kc.Mcall.Queues.Service.{CanRead, io_irq_service-IsQueued}
use lowrisc_kc.Mcall.Calls.{Ramdisk, mcall_dev_req}
use lowrisc_kc.Mcall.Requests.Meaning.{IsPlaced}
use lowrisc_kc.Mcall.Requests.{mcall_dev_req-IsPlaced}
use lowrisc_kc.Mcall.Signals.{IsSignalled, start, request, answer, Run-IsQueued}

-- The message at 128 is a write, every other a read; the data and the links are 0.
abbrev idle : Machine ℕ
idle = record {
  messages = λ m. record {
    dev = 0;
    cmd = if m == 128 then 1 else 0;
    payload = 0x41;
    sbi_private_data = 0;
  };
  disk_requests = λ p. record { addr = 0; offset = 0; size = 0; tag = 0 };
  names = λ p. [];
  device_request_queue_head = 0;
  device_request_queue_size = 0;
  device_response_queue_head = 0;
  device_response_queue_tail = 0;
  hart_id = 0;
  num_harts = 1;
  ipi_pending = λ h. 0;
  ssip = false;
  stip = false;
  mtie = false;
  mtimecmp = 0;
  irq_enable = 0;
  from_machine_mode = true;
  user_base = 0;
  mem_size = 4096;
  sent = [];
  ipis = [];
  disk = 0;
}

abbrev no_disk : Ramdisk ℕ
no_disk = record {
  f_stat = λ d. none;
  file_open = λ d. none;
  file_pread = λ addr size offset d. (d, 0);
  file_pwrite = λ addr size offset d. (d, 0);
  size_name = λ size. [];
}

idle-IsQueued : IsQueued idle [] []
idle-IsQueued = record {
  requests = refl;
  counted = refl;
  responses = refl;
  tail = refl;
  requests_distinct = tt;
  responses_distinct = tt;
  apart = tt;
}

abbrev one_request : Machine ℕ
one_request = enqueue_request 96 idle

abbrev two_requests : Machine ℕ
two_requests = enqueue_request 128 one_request

two_requests-IsQueued : IsQueued two_requests (128 ∷ 96 ∷ []) []
two_requests-IsQueued =
    enqueue_request-IsQueued 128 one_request (96 ∷ []) [] (omega arith)
      (omega arith, (omega arith, tt), tt)
      (enqueue_request-IsQueued 96 idle [] [] (omega arith) (omega arith, tt, tt) idle-IsQueued)

passed_write : is_read two_requests 128 ≡ false
unfolding is_read enqueue_request
passed_write = refl

found_read : is_read two_requests 96 ≡ true
unfolding is_read enqueue_request
found_read = refl

and-false : (b : Bool) → (b && false) ≡ false
and-false true = refl
and-false false = refl

readable : (m : ℕ) → CanRead two_requests m
unfolding enqueue_request
readable m = and-false (not (supervisor_paddr_valid two_requests m 32))

io_irq_service-IsQueued_example :
    (t : Machine ℕ) × (io_irq_service true 0x42 two_requests ≡ returned t)
    × IsQueued t (128 ∷ []) (96 ∷ [])
    × (t.ssip ≡ true)
io_irq_service-IsQueued_example =
    io_irq_service-IsQueued 0x42 96 two_requests (128 ∷ []) [] [] (readable 128, passed_write, tt)
      (readable 96) found_read two_requests-IsQueued

mcall_dev_resp-IsQueued_example :
    ((mcall_dev_resp (mcall_respond 96 1 idle)).1 ≡ 96)
    × IsQueued ((mcall_dev_resp (mcall_respond 96 1 idle)).0) [] []
mcall_dev_resp-IsQueued_example =
    mcall_dev_resp-IsQueued (mcall_respond 96 1 idle) [] 96 []
      (mcall_respond-IsQueued 96 1 idle [] [] (omega arith, tt, tt) idle-IsQueued)

mcall_dev_req-IsPlaced_example : IsPlaced no_disk idle 128 [] [] (mcall_dev_req no_disk 128 idle)
mcall_dev_req-IsPlaced_example =
    mcall_dev_req-IsPlaced no_disk 128 [] [] idle (omega arith) (omega arith) (omega arith, tt, tt)
      idle-IsQueued

Run-IsQueued_example :
    IsQueued (serve 0x42 0 96 one_request) [] (96 ∷ [])
    × IsSignalled (serve 0x42 0 96 one_request) (96 ∷ [])
Run-IsQueued_example = Run-IsQueued (
    answer 0x42 96 [] [] (
      request 96 (omega arith) (omega arith, tt, tt)
        (start idle
          (record { no_request = refl; no_size = refl; no_response = refl; no_tail = refl }))))

abbrev ranges : List (ℕ × ℕ)
ranges = (100, 108) ∷ (200, 204) ∷ []

trap_from_machine_mode-access_example :
    (Outside 200 ranges × (trap_from_machine_mode no_disk ranges 5 200 (λ i. 1) idle ≡ panicked))
    ⊎ ((last : ℕ) × FirstIn 200 ranges last
        × (trap_from_machine_mode no_disk ranges 5 200 (λ i. 1) idle
            ≡ returned (idle, store (λ i. 1) 5 0, last)))
trap_from_machine_mode-access_example =
    trap_from_machine_mode-access no_disk ranges 5 200 (λ i. 1) idle (inl refl)
