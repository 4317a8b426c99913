-- ===== src/Mcall/Queues/Refinement.antt =====
-- The linked queues of bbl/mtrap.c stand for lists of messages: a stack of requests and a queue of
-- responses.
use lowrisc_kc.Base.{
  eq_test, ne_test, ℕ, ◌≡◌, ◌≢◌, ◌⊎◌, refl, sym, ap, ◌∙◌, fun_ext, true, false, Bool-cases, inl,
  inr, List, [], ◌∷◌, ◌++◌, length, ◌==◌, ==_iff,
}
use lowrisc_kc.Mcall.State.{Machine, link, set_payload, next_of, store}
use lowrisc_kc.Mcall.Chains.{
  IsChain, NotIn, IsDistinct, IsApart, last_of, IsChain-store, IsChain-snoc, IsDistinct-snoc,
  IsApart-snoc, IsApart-last, IsChain-last_ne, last_of-snoc,
}
use lowrisc_kc.Mcall.Queues.{enqueue_response}

-- The queues hold the requests `rs`, latest first, and the responses `xs`, oldest first, and no
-- message twice.
pub record IsQueued {D : Type 0} (s : Machine D) (rs xs : List ℕ) : Type 0 where
  pub requests : IsChain (next_of s) s.device_request_queue_head rs
  pub counted : s.device_request_queue_size ≡ length rs
  pub responses : IsChain (next_of s) s.device_response_queue_head xs
  pub tail : s.device_response_queue_tail ≡ last_of xs
  pub requests_distinct : IsDistinct rs
  pub responses_distinct : IsDistinct xs
  pub apart : IsApart rs xs

-- A message that is in neither queue.
abbrev pub IsFresh : ℕ → List ℕ → List ℕ → Type 0
IsFresh m rs xs = (m ≢ 0) × NotIn m rs × NotIn m xs

-- Links and a head that are equal to others lead through the same messages.
pub IsChain-cong :
    (next other : ℕ → ℕ) (p q : ℕ) (xs : List ℕ)
    → other ≡ next
    → q ≡ p
    → IsChain next p xs
    → IsChain other q xs
IsChain-cong next other p q xs links head c = rw (links, head) c

module _ {D : Type 0} where
  pub next_of-link : (m v : ℕ) (s : Machine D) → next_of (link m v s) ≡ store (next_of s) m v
  unfolding link
  next_of-link m v s = fun_ext λ a. pick a (Bool-cases (m == a))
    where
      pick :
          (a : ℕ)
          → ((m == a) ≡ true) ⊎ ((m == a) ≡ false)
          → next_of (link m v s) a ≡ store (next_of s) m v a
      pick a (inl e) = rw (next_of, link, store, e) refl
      pick a (inr e) = rw (next_of, link, store, e) refl

  pub next_of-set_payload : (m v : ℕ) (s : Machine D) → next_of (set_payload m v s) ≡ next_of s
  unfolding set_payload
  next_of-set_payload m v s = fun_ext λ a. pick a (Bool-cases (m == a))
    where
      pick :
          (a : ℕ)
          → ((m == a) ≡ true) ⊎ ((m == a) ≡ false)
          → next_of (set_payload m v s) a ≡ next_of s a
      pick a (inl e) = rw (next_of, set_payload, store, e) (ap (next_of s) ((==_iff m a).0 e))
      pick a (inr e) = rw (next_of, set_payload, store, e) refl

  -- The links and the ends of the response queue after a message has been added at its end.
  next_of-enqueue_empty :
      (m : ℕ) (s : Machine D)
      → s.device_response_queue_tail ≡ 0
      → next_of (enqueue_response m s) ≡ next_of s
  unfolding enqueue_response
  next_of-enqueue_empty m s e = rw (enqueue_response, eq_test s.device_response_queue_tail 0 e) refl

  next_of-enqueue :
      (m : ℕ) (s : Machine D)
      → s.device_response_queue_tail ≢ 0
      → next_of (enqueue_response m s) ≡ store (next_of s) s.device_response_queue_tail m
  unfolding enqueue_response
  next_of-enqueue m s h =
      rw (enqueue_response, ne_test s.device_response_queue_tail 0 h)
        (next_of-link s.device_response_queue_tail m s)

  head-enqueue_empty :
      (m : ℕ) (s : Machine D)
      → s.device_response_queue_tail ≡ 0
      → (enqueue_response m s).device_response_queue_head ≡ m
  unfolding enqueue_response
  head-enqueue_empty m s e = rw (enqueue_response, eq_test s.device_response_queue_tail 0 e) refl

  head-enqueue :
      (m : ℕ) (s : Machine D)
      → s.device_response_queue_tail ≢ 0
      → (enqueue_response m s).device_response_queue_head ≡ s.device_response_queue_head
  unfolding enqueue_response link
  head-enqueue m s h = rw (enqueue_response, ne_test s.device_response_queue_tail 0 h) refl

  requests-enqueue :
      (m : ℕ) (s : Machine D)
      → ((enqueue_response m s).device_request_queue_head ≡ s.device_request_queue_head)
        × ((enqueue_response m s).device_request_queue_size ≡ s.device_request_queue_size)
  unfolding enqueue_response link
  requests-enqueue m s = elim (Bool-cases (s.device_response_queue_tail == 0)) [
    | inl e ↦ rw (enqueue_response, e) (refl, refl)
    | inr e ↦ rw (enqueue_response, e) (refl, refl)
  ]

  -- A message that ends its own chain joins the responses.
  pub enqueue_response-IsQueued :
      (m : ℕ) (s : Machine D) (rs xs : List ℕ)
      → next_of s m ≡ 0
      → IsFresh m rs xs
      → IsQueued s rs xs
      → IsQueued (enqueue_response m s) rs (xs ++ m ∷ [])
  unfolding enqueue_response
  enqueue_response-IsQueued m s rs [] end fresh q =
      let links = next_of-enqueue_empty m s (q.tail) in
      record {
        requests =
            IsChain-cong (next_of s) (next_of (enqueue_response m s)) s.device_request_queue_head
              ((enqueue_response m s).device_request_queue_head) rs links ((requests-enqueue m s).0)
              q.requests;
        counted = (requests-enqueue m s).1 ∙ q.counted;
        responses =
            IsChain-cong (next_of s) (next_of (enqueue_response m s)) m
              ((enqueue_response m s).device_response_queue_head) (m ∷ []) links
              (head-enqueue_empty m s q.tail) (refl, fresh.0, end);
        tail = refl;
        requests_distinct = q.requests_distinct;
        responses_distinct = (tt, tt);
        apart = IsApart-snoc m rs [] (fresh.1) q.apart;
      }
  enqueue_response-IsQueued m s rs (x ∷ xs) end fresh q =
      let ne : s.device_response_queue_tail ≢ 0 = λ e.
        IsChain-last_ne (next_of s) s.device_response_queue_head x xs q.responses
          (sym q.tail ∙ e) in
      let links : next_of (enqueue_response m s) ≡ store (next_of s) (last_of (x ∷ xs)) m =
        next_of-enqueue m s ne ∙ ap (λ (t : ℕ). store (next_of s) t m) q.tail in
      record {
        requests =
            IsChain-cong (store (next_of s) (last_of (x ∷ xs)) m) (next_of (enqueue_response m s))
              s.device_request_queue_head ((enqueue_response m s).device_request_queue_head) rs
              links ((requests-enqueue m s).0)
              (IsChain-store (next_of s) (last_of (x ∷ xs)) m s.device_request_queue_head rs
                (IsApart-last rs x xs q.apart) q.requests);
        counted = (requests-enqueue m s).1 ∙ q.counted;
        responses =
            IsChain-cong (store (next_of s) (last_of (x ∷ xs)) m) (next_of (enqueue_response m s))
              s.device_response_queue_head ((enqueue_response m s).device_response_queue_head)
              ((x ∷ xs) ++ m ∷ []) links (head-enqueue m s ne)
              (IsChain-snoc (next_of s) m s.device_response_queue_head x xs (fresh.0) end (fresh.2)
                q.responses_distinct q.responses);
        tail = sym (last_of-snoc m (x ∷ xs));
        requests_distinct = q.requests_distinct;
        responses_distinct = IsDistinct-snoc m (x ∷ xs) (fresh.2) q.responses_distinct;
        apart = IsApart-snoc m rs (x ∷ xs) (fresh.1) q.apart;
      }
