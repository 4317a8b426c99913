-- ===== src/Mcall/Requests.antt =====
-- Where `mcall_dev_req` of bbl/mtrap.c leaves the message that it is given.
pub mod Meaning
mod Devices
use lowrisc_kc.Base.{
  ℕ, ◌+◌, ◌<◌, ◌^◌, ◌≡◌, inl, inr, refl, true, false, not, ◌&&◌, ◌||◌, Bool, Bool-cases, List,
  length, ltb, ◌==◌, arith,
}
use lowrisc_kc.Mcall.State.{Machine, supervisor_paddr_valid}
use lowrisc_kc.Mcall.Queues.Refinement.{IsQueued, IsFresh}
use lowrisc_kc.Mcall.Calls.{Ramdisk, mcall_dev_req}
use Meaning.{InMemory_of, not-InMemory_of, IsAccessible, IsWellFormed, IsMalformed, IsPlaced}
use Devices.{test-IsPlaced, bcd_request-IsPlaced, unknown_request-IsPlaced, disk_request-IsPlaced}

not_both : (a b : Bool) → (not a && not b) ≡ false → a ≡ false → b ≡ true
not_both a b h k = ground arith

neither : (a b : Bool) → (not a && not b) ≡ true → (a ≡ false) × (b ≡ false)
neither a b h = ground arith

accessible_of :
    {D : Type 0} (s : Machine D) (m : ℕ)
    → m < 2 ^ 64
    → (not (supervisor_paddr_valid s m 32) && not s.from_machine_mode) ≡ false
    → IsAccessible s m
accessible_of s m b h = elim (Bool-cases (supervisor_paddr_valid s m 32)) [
  | inl v ↦ inl (InMemory_of s m b v)
  | inr v ↦ inr (not_both (supervisor_paddr_valid s m 32) s.from_machine_mode h v)
]

malformed_of :
    {D : Type 0} (s : Machine D) (m : ℕ)
    → (ltb 0xff (s.messages m).dev
        || ltb 0xff (s.messages m).cmd
        || ltb 0x0000ffffffffffff (s.messages m).payload)
      ≡ true
    → IsMalformed s m
malformed_of s m h = ground arith

formed_of :
    {D : Type 0} (s : Machine D) (m : ℕ)
    → (ltb 0xff (s.messages m).dev
        || ltb 0xff (s.messages m).cmd
        || ltb 0x0000ffffffffffff (s.messages m).payload)
      ≡ false
    → IsWellFormed s m
formed_of s m h = ground arith

-- A device request whose message is in neither queue. It is refused with -EFAULT exactly when the
-- message is not in the memory of the supervisor and the call is not from machine mode, otherwise
-- with -EINVAL exactly when its device or command does not fit 8 bits or its data 48, with nothing
-- changed. An identification whose buffer is aligned and whose name fits, a write to the console and
-- a whole transfer of the disk return 0 with their answer in the message, which is the last
-- response; a read from the console returns 0 and is the first request. Anything else panics.
pub mcall_dev_req-IsPlaced :
    {D : Type 0} (ramdisk : Ramdisk D) (m : ℕ) (rs xs : List ℕ) (s : Machine D)
    → m < 2 ^ 64
    → length rs + 1 < 2 ^ 64
    → IsFresh m rs xs
    → IsQueued s rs xs
    → IsPlaced ramdisk s m rs xs (mcall_dev_req ramdisk m s)
unfolding mcall_dev_req
mcall_dev_req-IsPlaced ramdisk m rs xs s small bound fresh q =
    let msg = s.messages m in
    test-IsPlaced ramdisk m s rs xs (not (supervisor_paddr_valid s m 32) && not s.from_machine_mode)
      _ _
      (λ f.
        let (out, user) = neither (supervisor_paddr_valid s m 32) s.from_machine_mode f in
        inl (refl, (not-InMemory_of s m out, user), refl))
      (λ f.
        let acc = accessible_of s m small f in
        test-IsPlaced ramdisk m s rs xs
          (ltb 0xff msg.dev || ltb 0xff msg.cmd || ltb 0x0000ffffffffffff msg.payload) _ _
          (λ i. inr (inl (refl, acc, malformed_of s m i, refl)))
          (λ i.
            let formed : IsWellFormed s m = formed_of s m i in
            test-IsPlaced ramdisk m s rs xs (msg.dev == 0) _ _
              (λ z. bcd_request-IsPlaced ramdisk m s rs xs bound fresh q acc formed (ground arith))
              (λ z.
                test-IsPlaced ramdisk m s rs xs (msg.dev == 1) _ _
                  (λ o.
                    disk_request-IsPlaced ramdisk m s rs xs bound fresh q acc formed (ground arith))
                  (λ o.
                    unknown_request-IsPlaced ramdisk m s rs xs bound fresh q acc formed
                      (ground arith)))))
