-- ===== src/Mcall/Queues/Service.antt =====
-- The answer to a read from the UART: `io_irq_service` of bbl/mtrap.c.
use lowrisc_kc.Base.{
  ne_test, ℕ, ◌-◌, ◌≡◌, refl, ap, ◌∙◌, true, false, not, ◌&&◌, List, [], ◌∷◌, ◌++◌, length,
  length-append, bit_or, u8, arith,
}
use lowrisc_kc.Mcall.State.{
  Machine, Outcome, returned, ◌>>=◌, link, set_payload, next_of, store, supervisor_paddr_valid,
}
use lowrisc_kc.Mcall.Chains.{
  IsChain, last_of, IsChain-store, IsChain-remove, IsDistinct-remove, IsApart-remove,
  IsChain-member_ne, IsChain-last_of_prefix, IsApart-last_of_prefix,
}
use lowrisc_kc.Mcall.Queues.{is_read, find_read, dequeue_request, serve, io_irq_service}
use lowrisc_kc.Mcall.Queues.Refinement.{
  IsQueued, IsFresh, IsChain-cong, next_of-link, enqueue_response-IsQueued,
}
use lowrisc_kc.Mcall.Queues.Operations.{link-IsQueued, set_payload-IsQueued, next_of-link_self}

module _ {D : Type 0} where
  -- The loop may look at a message: the supervisor owns it, or the trap is from machine mode.
  abbrev pub CanRead : Machine D → ℕ → Type 0
  CanRead s m = (not (supervisor_paddr_valid s m 32) && not s.from_machine_mode) ≡ false

  -- The messages that the loop passes over.
  abbrev pub ArePassed : Machine D → List ℕ → Type 0
  ArePassed s [] = Unit
  ArePassed s (x ∷ xs) = CanRead s x × (is_read s x ≡ false) × ArePassed s xs

  -- The last of `x ∷ xs`, with `prev` before it.
  find_read-first :
      (s : Machine D) (m prev p : ℕ) (xs ys : List ℕ)
      → ArePassed s xs
      → CanRead s m
      → is_read s m ≡ true
      → IsChain (next_of s) p (xs ++ (m ∷ ys))
      → find_read (length (xs ++ (m ∷ ys))) prev p s ≡ returned (last_of (prev ∷ xs), m)
  unfolding find_read
  find_read-first s m prev p [] ys pass can read c =
      ap (λ (t : ℕ). find_read (length (m ∷ ys)) prev t s) (c.0) ∙ rw (find_read, can, read) refl
  find_read-first s m prev p (x ∷ xs) ys pass can read c =
      ap (λ (t : ℕ). find_read (length ((x ∷ xs) ++ (m ∷ ys))) prev t s) (c.0)
      ∙ rw (find_read, pass.0, pass.1)
          (find_read-first s m x (next_of s x) xs ys (pass.2) can read (c.2))

  dequeue_first-IsQueued :
      (s : Machine D) (m : ℕ) (ys zs : List ℕ)
      → IsQueued s (m ∷ ys) zs
      → IsQueued (dequeue_request 0 m s) ys zs
  unfolding dequeue_request
  dequeue_first-IsQueued s m ys zs q = record {
    requests = (q.requests).2;
    counted = omega (arith, q.counted);
    responses = q.responses;
    tail = q.tail;
    requests_distinct = (q.requests_distinct).1;
    responses_distinct = q.responses_distinct;
    apart = (q.apart).1;
  }

  dequeue_later-IsQueued :
      (s : Machine D) (m x : ℕ) (xs ys zs : List ℕ)
      → IsQueued s ((x ∷ xs) ++ (m ∷ ys)) zs
      → IsQueued (dequeue_request (last_of (x ∷ xs)) m s) ((x ∷ xs) ++ ys) zs
  unfolding dequeue_request link
  dequeue_later-IsQueued s m x xs ys zs q =
      let prev = last_of (x ∷ xs) in
      let ne =
        IsChain-last_of_prefix (next_of s) s.device_request_queue_head x xs (m ∷ ys) q.requests in
      let links = next_of-link prev (next_of s m) s in
      let removed = IsDistinct-remove m (x ∷ xs) ys q.requests_distinct in
      let apart = IsApart-remove m (x ∷ xs) ys zs q.apart in
      let shorter : s.device_request_queue_size - 1 ≡ length ((x ∷ xs) ++ ys) =
        omega (arith, q.counted, length-append xs (m ∷ ys), length-append xs ys) in
      rw (dequeue_request, ne_test prev 0 ne)
        (record {
          requests =
              IsChain-cong (store (next_of s) prev (next_of s m))
                (next_of (link prev (next_of s m) s)) s.device_request_queue_head
                s.device_request_queue_head ((x ∷ xs) ++ ys) links refl
                (IsChain-remove (next_of s) m s.device_request_queue_head x xs ys
                  q.requests_distinct q.requests);
          counted = shorter;
          responses =
              IsChain-cong (store (next_of s) prev (next_of s m))
                (next_of (link prev (next_of s m) s)) s.device_response_queue_head
                s.device_response_queue_head zs links refl
                (IsChain-store (next_of s) prev (next_of s m) s.device_response_queue_head zs
                  (IsApart-last_of_prefix x xs (m ∷ ys) zs q.apart) q.responses);
          tail = q.tail;
          requests_distinct = removed.1;
          responses_distinct = q.responses_distinct;
          apart = apart.1;
        })

  -- A message leaves the requests, and is then in neither queue.
  dequeue-IsQueued :
      (s : Machine D) (m : ℕ) (xs ys zs : List ℕ)
      → IsQueued s (xs ++ (m ∷ ys)) zs
      → IsQueued (dequeue_request (last_of (0 ∷ xs)) m s) (xs ++ ys) zs
  dequeue-IsQueued s m [] ys zs q = dequeue_first-IsQueued s m ys zs q
  dequeue-IsQueued s m (x ∷ xs) ys zs q = dequeue_later-IsQueued s m x xs ys zs q

  removed-IsFresh :
      (s : Machine D) (m : ℕ) (xs ys zs : List ℕ)
      → IsQueued s (xs ++ (m ∷ ys)) zs
      → IsFresh m (xs ++ ys) zs
  removed-IsFresh s m xs ys zs q = (
    IsChain-member_ne (next_of s) m s.device_request_queue_head xs ys q.requests,
    (IsDistinct-remove m xs ys q.requests_distinct).0,
    (IsApart-remove m xs ys zs q.apart).0,
  )

  pub serve-IsQueued :
      (ch m : ℕ) (s : Machine D) (xs ys zs : List ℕ)
      → IsQueued s (xs ++ (m ∷ ys)) zs
      → IsQueued (serve ch (last_of (0 ∷ xs)) m s) (xs ++ ys) (zs ++ m ∷ [])
  unfolding serve
  serve-IsQueued ch m s xs ys zs q =
      let fresh = removed-IsFresh s m xs ys zs q in
      let value = bit_or 0x100 (u8 ch) in
      let answered = set_payload m value s in
      let without = dequeue_request (last_of (0 ∷ xs)) m answered in
      let queued =
        enqueue_response-IsQueued m (link m 0 without) (xs ++ ys) zs (next_of-link_self m 0 without)
          fresh
          (link-IsQueued m 0 without (xs ++ ys) zs fresh (
            dequeue-IsQueued answered m xs ys zs
              (set_payload-IsQueued m value s (xs ++ (m ∷ ys)) zs q))) in
      record {
        requests = queued.requests;
        counted = queued.counted;
        responses = queued.responses;
        tail = queued.tail;
        requests_distinct = queued.requests_distinct;
        responses_distinct = queued.responses_distinct;
        apart = queued.apart;
      }

  -- With a byte in the UART, the first read among the requests, at any place of the queue, goes to
  -- the end of the responses, and the other requests stay in order: if the loop can read the
  -- messages up to it, the trap returns.
  pub io_irq_service-IsQueued :
      (ch m : ℕ) (s : Machine D) (xs ys zs : List ℕ)
      → ArePassed s xs
      → CanRead s m
      → is_read s m ≡ true
      → IsQueued s (xs ++ (m ∷ ys)) zs
      → (t : Machine D) × (io_irq_service true ch s ≡ returned t)
        × IsQueued t (xs ++ ys) (zs ++ m ∷ [])
        × (t.ssip ≡ true)
  unfolding io_irq_service serve
  io_irq_service-IsQueued ch m s xs ys zs pass can read q =
      let found : find_read s.device_request_queue_size 0 s.device_request_queue_head s
          ≡ returned (last_of (0 ∷ xs), m) =
        ap (λ (n : ℕ). find_read n 0 s.device_request_queue_head s) q.counted
        ∙ find_read-first s m 0 s.device_request_queue_head xs ys pass can read q.requests in
      (
        serve ch (last_of (0 ∷ xs)) m s,
        ap (λ (o : Outcome (ℕ × ℕ)). o >>= λ f. returned (serve ch (f.0) (f.1) s)) found,
        serve-IsQueued ch m s xs ys zs q,
        refl,
      )
