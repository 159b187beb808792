-- ===== src/Processor/Interleave/Race.antt =====
-- A reset in one loop takes no heed of the nonces that the other loops submit with.
use zkcertificates_queue_pro.Base.{ℕ, ◌^◌, ◌<◌, ◌≡◌, ◌≢◌, refl, arith}
use zkcertificates_queue_pro.Processor.Interleave.{
  submitting, resetting, preparing, System, move, forget, take, told, reset, take_told, Steps, here,
  next,
}

-- While a loop submits with a nonce, let another one be about to reset the nonce for a retry. If the
-- node, which does not have the first one's transaction yet, tells that nonce again, then both submit
-- with it.
pub nonce_shared :
    {s : System} (i j n k e p l : ℕ)
    → i ≢ j
    → n < 2 ^ 64
    → s.pc i ≡ submitting n k e p
    → s.pc j ≡ resetting l
    → (t : System) × Steps s t
      × (t.pc i ≡ submitting n k e p)
      × (t.pc j ≡ submitting n l t.resets 0)
nonce_shared {s} i j n k e p l other small h h' =
    let s' = move j (preparing l) (forget s) in
    (
      take j n l (told n s'),
      next (next here (reset j l h')) (take_told j l n (ground arith) refl small),
      ground arith,
      ground arith,
    )
