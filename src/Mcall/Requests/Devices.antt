-- ===== src/Mcall/Requests/Devices.antt =====
-- The requests to each device that `mcall_dev_req` of bbl/mtrap.c hands on.
use lowrisc_kc.Base.{
  ℕ, ◌+◌, ◌<◌, ◌≤◌, ◌%◌, ◌/◌, ◌^◌, ◌≡◌, inl, inr, refl, true, false, not, Bool, Bool-cases, Option,
  none, some, List, [], ◌∷◌, ◌++◌, length, ltb, ◌==◌, bit_or, u8, eq_test, if◌then◌else◌, arith,
}
use lowrisc_kc.Mcall.State.{Machine, returned, panicked, set_payload}
use lowrisc_kc.Mcall.Queues.{mcall_respond, htif_cmd_read}
use lowrisc_kc.Mcall.Queues.Refinement.{IsQueued, IsFresh}
use lowrisc_kc.Mcall.Queues.Operations.{mcall_respond-IsQueued, enqueue_request-IsQueued}
use lowrisc_kc.Mcall.Calls.{
  Ramdisk, Reply, handle_identify, identify, mcall_console_putchar, bcd_request, unknown_request,
  identify_opened, identify_found, identify_disk, transfer, disk_request, htif_cmd_identify,
  htif_cmd_write, bcd,
}
use lowrisc_kc.Mcall.Requests.Meaning.{
  IsAccessible, IsWellFormed, IsName, console, disk, other, disk_name, Answers, identified, written,
  disk_read, disk_written, IsUnsupported, unaligned, too_long, short_read, short_write,
  unknown_command, unknown_device, IsPlaced,
}

mcall_respond-payload :
    {D : Type 0} (m resp : ℕ) (t : Machine D) → ((mcall_respond m resp t).messages m).payload ≡ resp
unfolding mcall_respond set_payload
mcall_respond-payload m resp t = rw (eq_test m m refl) refl

-- The names and the disk do not matter to the queues, nor does what the console was sent.
other_devices :
    {D : Type 0} (s : Machine D) (names : ℕ → List ℕ) (sent : List ℕ) (d : D) (rs xs : List ℕ)
    → IsQueued s rs xs
    → IsQueued (record s { names = names; sent = sent; disk = d }) rs xs
other_devices s names sent d rs xs q = record {
  requests = q.requests;
  counted = q.counted;
  responses = q.responses;
  tail = q.tail;
  requests_distinct = q.requests_distinct;
  responses_distinct = q.responses_distinct;
  apart = q.apart;
}

module _ {D : Type 0} (ramdisk : Ramdisk D) (m : ℕ) (s : Machine D) (rs xs : List ℕ) where
  -- Both ways of a test.
  pub test-IsPlaced :
      (b : Bool) (x y : Reply D)
      → (b ≡ true → IsPlaced ramdisk s m rs xs x)
      → (b ≡ false → IsPlaced ramdisk s m rs xs y)
      → IsPlaced ramdisk s m rs xs (if b then x else y)
  test-IsPlaced true x y px py = px refl
  test-IsPlaced false x y px py = py refl

  module _ (bound : length rs + 1 < 2 ^ 64) (fresh : IsFresh m rs xs) (q : IsQueued s rs xs)
      (accessible : IsAccessible s m) (formed : IsWellFormed s m) where
    respond-IsPlaced :
        (resp : ℕ) (t : Machine D)
        → IsQueued t rs xs
        → Answers ramdisk s m resp
        → IsPlaced ramdisk s m rs xs (returned (mcall_respond m resp t, 0))
    respond-IsPlaced resp t k a = inr (
        inr (
          inl (
            refl,
            accessible,
            formed,
            rw (mcall_respond-payload m resp t) a,
            mcall_respond-IsQueued m resp t rs xs fresh k,
          )))

    panic-IsPlaced : IsUnsupported ramdisk s m → IsPlaced ramdisk s m rs xs panicked
    panic-IsPlaced u = (accessible, formed, u)

    -- With a disk that may have been opened.
    identify-IsPlaced :
        (d : D) (name : List ℕ)
        → (s.messages m).cmd ≡ 255
        → IsName ramdisk s m name
        → IsPlaced ramdisk s m rs xs (identify m name (record s { disk = d }))
    unfolding identify handle_identify
    identify-IsPlaced d name c n =
        elim (Bool-cases (not ((s.messages m).payload / 256 % 64 == 0))) [
          | inl odd ↦ rw odd (panic-IsPlaced (unaligned c (ground arith)))
          | inr even ↦ rw even (elim (Bool-cases (ltb 64 (length name))) [
            | inl long ↦ rw long (panic-IsPlaced (too_long name c n (ground arith)))
            | inr fits ↦ rw fits (
                respond-IsPlaced 1 _ (other_devices s _ s.sent d rs xs q)
                  (identified name c n (ground arith) (ground arith)))
          ])
        ]

    pub bcd_request-IsPlaced : (s.messages m).dev ≡ 0 → IsPlaced ramdisk s m rs xs (bcd_request m s)
    unfolding bcd_request mcall_console_putchar
    bcd_request-IsPlaced dev =
        let cmd = (s.messages m).cmd in
        let payload = (s.messages m).payload in
        test-IsPlaced (cmd == htif_cmd_identify) _ _
          (λ c. identify-IsPlaced s.disk bcd (ground arith) (console dev))
          (λ c.
            test-IsPlaced (cmd == htif_cmd_read) _ _
              (λ r. inr (
                inr (
                  inr (
                    refl,
                    accessible,
                    formed,
                    dev,
                    ground arith,
                    enqueue_request-IsQueued m s rs xs bound fresh q,
                  ))))
              (λ r.
                test-IsPlaced (cmd == htif_cmd_write) _ _
                  (λ w.
                    respond-IsPlaced (bit_or 0x100 (u8 payload))
                      (record s { sent = s.sent ++ u8 payload ∷ [] })
                      (other_devices s s.names (s.sent ++ u8 payload ∷ []) s.disk rs xs q)
                      (written dev (ground arith)))
                  (λ w.
                    panic-IsPlaced (unknown_command (ground arith) (ground arith) (ground arith)))))

    pub unknown_request-IsPlaced :
        2 ≤ (s.messages m).dev → IsPlaced ramdisk s m rs xs (unknown_request m s)
    unfolding unknown_request
    unknown_request-IsPlaced dev =
        test-IsPlaced ((s.messages m).cmd == htif_cmd_identify) _ _
          (λ c. identify-IsPlaced s.disk [] (ground arith) (other [] dev refl))
          (λ c. panic-IsPlaced (unknown_device dev (ground arith)))

    module _ (dev : (s.messages m).dev ≡ 1) where
      named : (name : List ℕ) → disk_name ramdisk s m ≡ name → IsName ramdisk s m name
      named name e = let n : IsName ramdisk s m (disk_name ramdisk s m) = disk dev in rw e at n

      opened-IsPlaced :
          (size : ℕ) (o : Option D)
          → (s.messages m).cmd ≡ 255
          → ramdisk.f_stat s.disk ≡ some size
          → ramdisk.file_open s.disk ≡ o
          → IsPlaced ramdisk s m rs xs (identify_opened ramdisk m size s o)
      unfolding identify_opened
      opened-IsPlaced size none c e f =
          identify-IsPlaced s.disk [] c (named [] (unfold disk_name in rw (disk_name, e, f) refl))
      opened-IsPlaced size (some d) c e f =
          identify-IsPlaced d (ramdisk.size_name size) c
            (named (ramdisk.size_name size) (unfold disk_name in rw (disk_name, e, f) refl))

      found-IsPlaced :
          (o : Option ℕ)
          → (s.messages m).cmd ≡ 255
          → ramdisk.f_stat s.disk ≡ o
          → IsPlaced ramdisk s m rs xs (identify_found ramdisk m s o)
      unfolding identify_found
      found-IsPlaced none c e =
          identify-IsPlaced s.disk [] c (named [] (unfold disk_name in rw (disk_name, e) refl))
      found-IsPlaced (some size) c e = opened-IsPlaced size (ramdisk.file_open s.disk) c e refl

      identify_disk-IsPlaced :
          (s.messages m).cmd ≡ 255 → IsPlaced ramdisk s m rs xs (identify_disk ramdisk m s)
      unfolding identify_disk
      identify_disk-IsPlaced c = found-IsPlaced (ramdisk.f_stat s.disk) c refl

      transfer-IsPlaced :
          (move : ℕ → ℕ → ℕ → D → D × ℕ)
          → let req = s.disk_requests ((s.messages m).payload) in
            let size = (move req.addr req.size req.offset s.disk).1 in
            (size ≡ req.size → Answers ramdisk s m req.tag)
            → ((size ≡ req.size → ⊥) → IsUnsupported ramdisk s m)
            → IsPlaced ramdisk s m rs xs (transfer ramdisk move m s)
      unfolding transfer
      transfer-IsPlaced move whole short =
          let req = s.disk_requests ((s.messages m).payload) in
          let moved = move req.addr req.size req.offset s.disk in
          test-IsPlaced (moved.1 == req.size) _ _
            (λ e.
              respond-IsPlaced req.tag (record s { disk = moved.0 })
                (other_devices s s.names s.sent (moved.0) rs xs q) (whole (ground arith)))
            (λ e. panic-IsPlaced (short (ground arith)))

      pub disk_request-IsPlaced : IsPlaced ramdisk s m rs xs (disk_request ramdisk m s)
      unfolding disk_request
      disk_request-IsPlaced =
          let cmd = (s.messages m).cmd in
          test-IsPlaced (cmd == htif_cmd_identify) _ _ (λ c. identify_disk-IsPlaced (ground arith))
            (λ c.
              test-IsPlaced (cmd == htif_cmd_read) _ _
                (λ r.
                  transfer-IsPlaced ramdisk.file_pread (disk_read dev (ground arith))
                    (short_read dev (ground arith)))
                (λ r.
                  test-IsPlaced (cmd == htif_cmd_write) _ _
                    (λ w.
                      transfer-IsPlaced ramdisk.file_pwrite (disk_written dev (ground arith))
                        (short_write dev (ground arith)))
                    (λ w.
                      panic-IsPlaced
                        (unknown_command (ground arith) (ground arith) (ground arith)))))
