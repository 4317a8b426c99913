-- ===== src/Mcall/Signals.antt =====
-- No response is lost: while a response waits, the software interrupt of the supervisor is pending.
-- The runs of the queues of bbl/mtrap.c, from the machine that hls_init leaves.
use lowrisc_kc.Base.{
  eq_test, ne_test, ℕ, ◌+◌, ◌<◌, ◌^◌, ◌≡◌, refl, sym, ap, ◌∙◌, true, false, List, [], ◌∷◌, ◌++◌,
  length, ◌==◌,
}
use lowrisc_kc.Mcall.State.{Machine, next_of}
use lowrisc_kc.Mcall.Chains.{last_of}
use lowrisc_kc.Mcall.Queues.{mcall_respond, enqueue_request, mcall_dev_resp, serve}
use lowrisc_kc.Mcall.Queues.Refinement.{IsQueued, IsFresh}
use lowrisc_kc.Mcall.Queues.Operations.{
  mcall_respond-IsQueued, enqueue_request-IsQueued, mcall_dev_resp-IsQueued, mcall_dev_resp-empty,
}
use lowrisc_kc.Mcall.Queues.Service.{serve-IsQueued}
use lowrisc_kc.Mcall.Calls.{mcall_clear_ipi}

module _ {D : Type 0} where
  -- The state after hls_init, where only the queues matter.
  pub record IsEmpty (s : Machine D) : Type 0 where
    pub no_request : s.device_request_queue_head ≡ 0
    pub no_size : s.device_request_queue_size ≡ 0
    pub no_response : s.device_response_queue_head ≡ 0
    pub no_tail : s.device_response_queue_tail ≡ 0

  -- The machines that the calls reach, with the requests and the responses that wait. A message is
  -- sent only while it is in neither queue: the code has no test for that, and a message that is
  -- sent twice makes a cycle.
  pub data Run : Machine D → List ℕ → List ℕ → Type 0 where
    start : (s : Machine D) → IsEmpty s → Run s [] []
    respond :
        (m resp : ℕ) {s : Machine D} {rs xs : List ℕ}
        → IsFresh m rs xs
        → Run s rs xs
        → Run (mcall_respond m resp s) rs (xs ++ m ∷ [])
    request :
        (m : ℕ) {s : Machine D} {rs xs : List ℕ}
        → length rs + 1 < 2 ^ 64
        → IsFresh m rs xs
        → Run s rs xs
        → Run (enqueue_request m s) (m ∷ rs) xs
    receive :
        {s : Machine D} {rs : List ℕ} {x : ℕ} {xs : List ℕ}
        → Run s rs (x ∷ xs)
        → Run ((mcall_dev_resp s).0) rs xs
    receive_none : {s : Machine D} {rs : List ℕ} → Run s rs [] → Run ((mcall_dev_resp s).0) rs []
    answer :
        (ch m : ℕ) {s : Machine D} (xs ys : List ℕ) {zs : List ℕ}
        → Run s (xs ++ (m ∷ ys)) zs
        → Run (serve ch (last_of (0 ∷ xs)) m s) (xs ++ ys) (zs ++ m ∷ [])
    clear : {s : Machine D} {rs xs : List ℕ} → Run s rs xs → Run ((mcall_clear_ipi s).0) rs xs

  abbrev pub IsSignalled : Machine D → List ℕ → Type 0
  IsSignalled s [] = Unit
  IsSignalled s (x ∷ xs) = s.ssip ≡ true

  IsSignalled-set : (s : Machine D) (xs : List ℕ) → s.ssip ≡ true → IsSignalled s xs
  IsSignalled-set s [] h = tt
  IsSignalled-set s (x ∷ xs) h = h

  mcall_respond-ssip : (m resp : ℕ) (s : Machine D) → (mcall_respond m resp s).ssip ≡ true
  unfolding mcall_respond
  mcall_respond-ssip m resp s = refl

  serve-ssip : (ch prev m : ℕ) (s : Machine D) → (serve ch prev m s).ssip ≡ true
  unfolding serve
  serve-ssip ch prev m s = refl

  enqueue_request-IsSignalled :
      (m : ℕ) (s : Machine D) (xs : List ℕ)
      → IsSignalled s xs
      → IsSignalled (enqueue_request m s) xs
  unfolding enqueue_request
  enqueue_request-IsSignalled m s [] h = tt
  enqueue_request-IsSignalled m s (x ∷ xs) h = h

  -- A response that stays keeps the signal.
  mcall_dev_resp-IsSignalled :
      (s : Machine D) (rs : List ℕ) (x : ℕ) (xs : List ℕ)
      → IsQueued s rs (x ∷ xs)
      → s.ssip ≡ true
      → IsSignalled ((mcall_dev_resp s).0) xs
  unfolding mcall_dev_resp
  mcall_dev_resp-IsSignalled s rs x [] q h = tt
  mcall_dev_resp-IsSignalled s rs x (y ∷ xs) q h =
      let c = q.responses in
      let head : (s.device_response_queue_head == 0) ≡ false =
        ne_test s.device_response_queue_head 0 (λ e. c.1 (sym (c.0) ∙ e)) in
      let more : (next_of s s.device_response_queue_head == 0) ≡ false =
        ne_test (next_of s s.device_response_queue_head) 0
          (λ e. c.2.1 (sym (ap (next_of s) (c.0) ∙ c.2.0) ∙ e)) in
      rw (mcall_dev_resp, head, more) h

  mcall_clear_ipi-IsQueued :
      (s : Machine D) (rs xs : List ℕ)
      → IsQueued s rs xs
      → IsSignalled s xs
      → IsQueued ((mcall_clear_ipi s).0) rs xs × IsSignalled ((mcall_clear_ipi s).0) xs
  unfolding mcall_clear_ipi
  mcall_clear_ipi-IsQueued s rs [] q h =
      rw (mcall_clear_ipi, eq_test s.device_response_queue_head 0 q.responses)
        (
          record {
            requests = q.requests;
            counted = q.counted;
            responses = q.responses;
            tail = q.tail;
            requests_distinct = q.requests_distinct;
            responses_distinct = q.responses_distinct;
            apart = q.apart;
          },
          tt,
        )
  mcall_clear_ipi-IsQueued s rs (x ∷ xs) q h =
      let c = q.responses in
      rw (mcall_clear_ipi, ne_test s.device_response_queue_head 0 (λ e. c.1 (sym (c.0) ∙ e)))
        (
          record {
            requests = q.requests;
            counted = q.counted;
            responses = q.responses;
            tail = q.tail;
            requests_distinct = q.requests_distinct;
            responses_distinct = q.responses_distinct;
            apart = q.apart;
          },
          h,
        )

  -- In every machine that the operations reach while a message is sent only when it is in neither
  -- queue, and a read only while fewer than 2^64 - 1 requests wait, the queues are well formed and
  -- hold exactly the messages that wait, and the software interrupt is pending while a response
  -- waits.
  pub Run-IsQueued :
      {s : Machine D} {rs xs : List ℕ} → Run s rs xs → IsQueued s rs xs × IsSignalled s xs
  Run-IsQueued (start s e) = (
    record {
      requests = e.no_request;
      counted = e.no_size;
      responses = e.no_response;
      tail = e.no_tail;
      requests_distinct = tt;
      responses_distinct = tt;
      apart = tt;
    },
    tt,
  )
  Run-IsQueued (respond m resp {s} {rs} {xs} fresh r) =
      let before = Run-IsQueued r in
      (
        mcall_respond-IsQueued m resp s rs xs fresh (before.0),
        IsSignalled-set (mcall_respond m resp s) (xs ++ m ∷ []) (mcall_respond-ssip m resp s),
      )
  Run-IsQueued (request m {s} {rs} {xs} bound fresh r) =
      let before = Run-IsQueued r in
      (
        enqueue_request-IsQueued m s rs xs bound fresh (before.0),
        enqueue_request-IsSignalled m s xs (before.1),
      )
  Run-IsQueued (receive {s} {rs} {x} {xs} r) =
      let before = Run-IsQueued r in
      (
        (mcall_dev_resp-IsQueued s rs x xs (before.0)).1,
        mcall_dev_resp-IsSignalled s rs x xs (before.0) (before.1),
      )
  Run-IsQueued (receive_none {s} {rs} r) =
      let before = Run-IsQueued r in
      let same = mcall_dev_resp-empty s rs (before.0) in (rw same (before.0), tt)
  Run-IsQueued (answer ch m {s} xs ys {zs} r) =
      let before = Run-IsQueued r in
      (
        serve-IsQueued ch m s xs ys zs (before.0),
        IsSignalled-set (serve ch (last_of (0 ∷ xs)) m s) (zs ++ m ∷ [])
            (serve-ssip ch (last_of (0 ∷ xs)) m s),
      )
  Run-IsQueued (clear {s} {rs} {xs} r) =
      let before = Run-IsQueued r in mcall_clear_ipi-IsQueued s rs xs (before.0) (before.1)
