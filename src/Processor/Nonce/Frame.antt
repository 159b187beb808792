-- ===== src/Processor/Nonce/Frame.antt =====
-- What `submitWithRetry` leaves alone: the log, and all of the service but the nonce.
use zkcertificates_queue_pro.Base.{
  ℕ, zero, suc, ◌≡◌, refl, ◌∙◌, String, Option, none, some, List, Result, ok, err,
}
use zkcertificates_queue_pro.Evm.Types.{Address, Hash}
use zkcertificates_queue_pro.Processor.Types.{TransactOpts, Backend, State, Act}
use zkcertificates_queue_pro.Processor.Nonce.{
  with_nonce, next_nonce, take_nonce, with_transactor, prepare_transactor, submitted_with,
  submit_prepared, before_attempt, attempt_once, attempts_from, submit_with_retry,
}
use zkcertificates_queue_pro.Processor.Nonce.Cases.{
  unprepared_case, refused_case, accepted_case, Attempt-cases,
}
use zkcertificates_queue_pro.Processor.Operations.{submit_operation}

-- The log is as it was, and so is the service, up to the nonce that it keeps.
pub record Frames {W : Type 0} (s s' : State W) : Type 0 where
  pub outputs_same : s'.outputs ≡ s.outputs
  pub service_same : with_nonce none s'.service ≡ with_nonce none s.service

Frames-trans : {W : Type 0} (s t u : State W) → Frames s t → Frames t u → Frames s u
Frames-trans s t u f g = record {
  outputs_same = g.outputs_same ∙ f.outputs_same;
  service_same = g.service_same ∙ f.service_same;
}

module _ (b : Backend) (key : ℕ) where
  open b use {World}

  take_nonce-Frames :
      (from : Address) (r : Result ℕ) (s : State World) → Frames s (take_nonce b from r s).1
  unfolding take_nonce
  take_nonce-Frames from (err e) s = record { outputs_same = refl; service_same = refl }
  take_nonce-Frames from (ok n) s = record { outputs_same = refl; service_same = refl }

  next_nonce-Frames : (kept : Option ℕ) (s : State World) → Frames s (next_nonce b key kept s).1
  unfolding next_nonce
  next_nonce-Frames none s = record { outputs_same = refl; service_same = refl }
  next_nonce-Frames (some n) s = record { outputs_same = refl; service_same = refl }

  with_transactor-Frames :
      (r : Result Address) (s : State World) → Frames s (with_transactor b key r s).1
  unfolding with_transactor
  with_transactor-Frames (err e) s = record { outputs_same = refl; service_same = refl }
  with_transactor-Frames (ok from) s =
      let (n, s') = next_nonce b key s.service.current_nonce s in
      Frames-trans s s' _ (next_nonce-Frames s.service.current_nonce s)
        (take_nonce-Frames from n s')

  prepare_transactor-Frames : (s : State World) → Frames s (prepare_transactor b key s).1
  unfolding prepare_transactor
  prepare_transactor-Frames s = with_transactor-Frames _ s

  module _ (submit : TransactOpts → Act World (Result Hash))
      (submit-Frames : (auth : TransactOpts) (s : State World) → Frames s (submit auth s).1) where
    submitted_with-Frames :
        (n : ℕ) (r : Result Hash) (s : State World) → Frames s (submitted_with b key submit n r s).1
    unfolding submitted_with
    submitted_with-Frames n (ok tx) s = record { outputs_same = refl; service_same = refl }
    submitted_with-Frames n (err e) s = record { outputs_same = refl; service_same = refl }

    submit_prepared-Frames :
        (r : Result (TransactOpts × ℕ)) (s : State World)
        → Frames s (submit_prepared b key submit r s).1
    unfolding submit_prepared
    submit_prepared-Frames (err e) s = record { outputs_same = refl; service_same = refl }
    submit_prepared-Frames (ok (auth, n)) s =
        let (r, s') = submit auth s in
        Frames-trans s s' _ (submit-Frames auth s) (submitted_with-Frames n r s')

    before_attempt-Frames : (k : ℕ) (s : State World) → Frames s (before_attempt b key submit k s).1
    unfolding before_attempt
    before_attempt-Frames zero s = record { outputs_same = refl; service_same = refl }
    before_attempt-Frames (suc k) s = record { outputs_same = refl; service_same = refl }

    attempt_once-Frames : (k : ℕ) (s : State World) → Frames s (attempt_once b key submit k s).1
    unfolding attempt_once
    attempt_once-Frames k s =
        let s0 = (before_attempt b key submit k s).1 in
        let (r, s') = prepare_transactor b key s0 in
        Frames-trans s s0 _ (before_attempt-Frames k s)
          (Frames-trans s0 s' _ (prepare_transactor-Frames s0) (submit_prepared-Frames r s'))

    attempts_from-Frames :
        (left k n : ℕ) (e : Option String) (s : State World)
        → Frames s (attempts_from b key submit left k n e s).1
    unfolding attempts_from
    attempts_from-Frames zero k n e s = record { outputs_same = refl; service_same = refl }
    attempts_from-Frames (suc left) k n e s =
        let s' = (attempt_once b key submit k s).1 in
        let first = attempt_once-Frames k s in
        elim (Attempt-cases (attempt_once b key submit k s).0) [
          | unprepared_case x p ↦
              rw (p, attempts_from)
                (Frames-trans s s' _ first (attempts_from-Frames left (suc k) n (some x) s'))
          | refused_case m x p ↦
              rw (p, attempts_from)
                (Frames-trans s s' _ first (attempts_from-Frames left (suc k) m (some x) s'))
          | accepted_case m tx p ↦ rw (p, attempts_from) first
        ]

  -- For the closure of an operation.
  submit_operation-Frames :
      (contract : Address) (leaf : ℕ) (hash : Hash) (proof : List Hash) (auth : TransactOpts)
      (s : State World)
      → Frames s (submit_operation b contract leaf hash proof auth s).1
  unfolding submit_operation
  submit_operation-Frames contract leaf hash proof auth s = record {
    outputs_same = refl;
    service_same = refl;
  }

  pub submit_with_retry-Frames :
      (contract : Address) (leaf : ℕ) (hash : Hash) (proof : List Hash) (max : ℕ) (s : State World)
      → Frames s (submit_with_retry b key (submit_operation b contract leaf hash proof) max s).1
  unfolding submit_with_retry
  submit_with_retry-Frames contract leaf hash proof max s =
      attempts_from-Frames (submit_operation b contract leaf hash proof)
        (submit_operation-Frames contract leaf hash proof) max 0 0 none s
