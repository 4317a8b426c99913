-- ===== src/Mcall/Queues/Operations.antt =====
-- What the operations on the queues of bbl/mtrap.c do to the lists that the queues stand for.
use lowrisc_kc.Base.{
  eq_test, ne_test, ℕ, ◌+◌, ◌<◌, ◌^◌, ◌≡◌, refl, sym, ap, ◌∙◌, true, false, List, [], ◌∷◌, ◌++◌,
  length, ◌==◌, arith,
}
use lowrisc_kc.Mcall.State.{Machine, link, set_payload, next_of, store}
use lowrisc_kc.Mcall.Chains.{IsChain-store, IsApart-tail}
use lowrisc_kc.Mcall.Queues.{enqueue_response, mcall_respond, enqueue_request, mcall_dev_resp}
use lowrisc_kc.Mcall.Queues.Refinement.{
  IsQueued, IsFresh, IsChain-cong, next_of-link, next_of-set_payload, enqueue_response-IsQueued,
}

module _ {D : Type 0} where
  -- The link of a message that is in neither queue can be set.
  pub link-IsQueued :
      (m v : ℕ) (s : Machine D) (rs xs : List ℕ)
      → IsFresh m rs xs
      → IsQueued s rs xs
      → IsQueued (link m v s) rs xs
  unfolding link
  link-IsQueued m v s rs xs fresh q =
      let links = next_of-link m v s in
      record {
        requests =
            IsChain-cong (store (next_of s) m v) (next_of (link m v s)) s.device_request_queue_head
              s.device_request_queue_head rs links refl
              (IsChain-store (next_of s) m v s.device_request_queue_head rs (fresh.1) q.requests);
        counted = q.counted;
        responses =
            IsChain-cong (store (next_of s) m v) (next_of (link m v s)) s.device_response_queue_head
              s.device_response_queue_head xs links refl
              (IsChain-store (next_of s) m v s.device_response_queue_head xs (fresh.2) q.responses);
        tail = q.tail;
        requests_distinct = q.requests_distinct;
        responses_distinct = q.responses_distinct;
        apart = q.apart;
      }

  pub set_payload-IsQueued :
      (m v : ℕ) (s : Machine D) (rs xs : List ℕ)
      → IsQueued s rs xs
      → IsQueued (set_payload m v s) rs xs
  unfolding set_payload
  set_payload-IsQueued m v s rs xs q =
      let links = next_of-set_payload m v s in
      record {
        requests =
            IsChain-cong (next_of s) (next_of (set_payload m v s)) s.device_request_queue_head
              s.device_request_queue_head rs links refl q.requests;
        counted = q.counted;
        responses =
            IsChain-cong (next_of s) (next_of (set_payload m v s)) s.device_response_queue_head
              s.device_response_queue_head xs links refl q.responses;
        tail = q.tail;
        requests_distinct = q.requests_distinct;
        responses_distinct = q.responses_distinct;
        apart = q.apart;
      }

  pub next_of-link_self : (m v : ℕ) (s : Machine D) → next_of (link m v s) m ≡ v
  next_of-link_self m v s =
      ap (λ (f : ℕ → ℕ). f m) (next_of-link m v s) ∙ rw (eq_test m m refl) refl

  -- A response joins the end of the queue.
  pub mcall_respond-IsQueued :
      (m resp : ℕ) (s : Machine D) (rs xs : List ℕ)
      → IsFresh m rs xs
      → IsQueued s rs xs
      → IsQueued (mcall_respond m resp s) rs (xs ++ m ∷ [])
  unfolding mcall_respond
  mcall_respond-IsQueued m resp s rs xs fresh q =
      let ended = link m 0 s in
      let queued = set_payload-IsQueued m resp (enqueue_response m ended) rs (xs ++ m ∷ []) (
        enqueue_response-IsQueued m ended rs xs (next_of-link_self m 0 s) fresh
          (link-IsQueued m 0 s rs xs fresh q)) in
      record {
        requests = queued.requests;
        counted = queued.counted;
        responses = queued.responses;
        tail = queued.tail;
        requests_distinct = queued.requests_distinct;
        responses_distinct = queued.responses_distinct;
        apart = queued.apart;
      }

  -- A request waits at the head of its queue.
  pub enqueue_request-IsQueued :
      (m : ℕ) (s : Machine D) (rs xs : List ℕ)
      → length rs + 1 < 2 ^ 64
      → IsFresh m rs xs
      → IsQueued s rs xs
      → IsQueued (enqueue_request m s) (m ∷ rs) xs
  unfolding enqueue_request link
  enqueue_request-IsQueued m s rs xs bound fresh q =
      let queued = link-IsQueued m s.device_request_queue_head s rs xs fresh q in
      record {
        requests = (
          refl,
          fresh.0,
          IsChain-cong (next_of (link m s.device_request_queue_head s))
              (next_of (link m s.device_request_queue_head s)) s.device_request_queue_head
              (next_of (link m s.device_request_queue_head s) m) rs refl
              (next_of-link_self m s.device_request_queue_head s) queued.requests,
        );
        counted = omega (arith, q.counted);
        responses = queued.responses;
        tail = queued.tail;
        requests_distinct = (fresh.1, q.requests_distinct);
        responses_distinct = q.responses_distinct;
        apart = (fresh.2, q.apart);
      }

  -- The oldest response leaves the queue.
  pub mcall_dev_resp-IsQueued :
      (s : Machine D) (rs : List ℕ) (x : ℕ) (xs : List ℕ)
      → IsQueued s rs (x ∷ xs)
      → ((mcall_dev_resp s).1 ≡ x) × IsQueued ((mcall_dev_resp s).0) rs xs
  unfolding mcall_dev_resp
  mcall_dev_resp-IsQueued s rs x [] q =
      let head : (s.device_response_queue_head == 0) ≡ false =
        ne_test s.device_response_queue_head 0 (λ e. (q.responses).1 (sym ((q.responses).0) ∙ e)) in
      let last : (next_of s s.device_response_queue_head == 0) ≡ true =
        eq_test (next_of s s.device_response_queue_head) 0
          (ap (next_of s) ((q.responses).0) ∙ (q.responses).2) in
      rw (mcall_dev_resp, head, last)
        (
          (q.responses).0,
          record {
            requests = q.requests;
            counted = q.counted;
            responses = ap (next_of s) ((q.responses).0) ∙ (q.responses).2;
            tail = refl;
            requests_distinct = q.requests_distinct;
            responses_distinct = tt;
            apart = IsApart-tail rs x [] q.apart;
          },
        )
  mcall_dev_resp-IsQueued s rs x (y ∷ xs) q =
      let c = q.responses in
      let head : (s.device_response_queue_head == 0) ≡ false =
        ne_test s.device_response_queue_head 0 (λ e. c.1 (sym (c.0) ∙ e)) in
      let link_to : next_of s s.device_response_queue_head ≡ next_of s x = ap (next_of s) (c.0) in
      let more : (next_of s s.device_response_queue_head == 0) ≡ false =
        ne_test (next_of s s.device_response_queue_head) 0
          (λ e. c.2.1 (sym (link_to ∙ c.2.0) ∙ e)) in
      rw (mcall_dev_resp, head, more)
        (
          c.0,
          record {
            requests = q.requests;
            counted = q.counted;
            responses =
                IsChain-cong (next_of s) (next_of s) (next_of s x)
                  (next_of s s.device_response_queue_head) (y ∷ xs) refl link_to (c.2);
            tail = q.tail;
            requests_distinct = q.requests_distinct;
            responses_distinct = (q.responses_distinct).1;
            apart = IsApart-tail rs x (y ∷ xs) q.apart;
          },
        )

  -- With no response, nothing changes and NULL is returned.
  pub mcall_dev_resp-empty :
      (s : Machine D) (rs : List ℕ) → IsQueued s rs [] → mcall_dev_resp s ≡ (s, 0)
  unfolding mcall_dev_resp
  mcall_dev_resp-empty s rs q =
      rw (mcall_dev_resp, eq_test s.device_response_queue_head 0 q.responses)
        (ap (λ (p : ℕ). (s, p)) q.responses)
