-- ===== src/Processor/Nonce.antt =====
-- queueprocessor/processor.go: `prepareTransactor` and `submitWithRetry`.
mod Cases
pub mod Retry
pub mod Frame
pub mod LoopRuns
pub mod Interleaved
pub mod Accepting
use zkcertificates_queue_pro.Base.{
  ℕ, zero, suc, ◌+◌, ◌*◌, ◌%◌, ◌^◌, ltb, String, Bool, Option, none, some, Result, ok, err,
  if◌then◌else◌,
}
use zkcertificates_queue_pro.Base.Int.{ℤ, int64}
use zkcertificates_queue_pro.Evm.Types.{Address, Hash}
use zkcertificates_queue_pro.Processor.Types.{Service, TransactOpts, Backend, State, Act}
use zkcertificates_queue_pro.Processor.Act.{◌>>=◌, ◌>>◌, pure, call, gets, run, modify}

-- What `submitWithRetry` returns: the answer, the nonce used and the attempts made; or the last
-- error (none if no attempt was to be made), the last nonce and the attempts.
pub data Submission : Type 0 where
  submitted : Hash → ℕ → ℕ → Submission
  gave_up : Option String → ℕ → ℕ → Submission

-- How one attempt ends.
pub data Attempt : Type 0 where
  unprepared : String → Attempt
  refused : ℕ → String → Attempt
  accepted : ℕ → Hash → Attempt

abbrev pub with_nonce : Option ℕ → Service → Service
with_nonce n s = record s { current_nonce = n }

module _ (b : Backend) where
  open b use {World, pending_nonce_at, sleep, key_address, new_keyed_transactor}

  -- The nonce to use: the one kept, or the node's.
  next_nonce : ℕ → Option ℕ → Act World (Result ℕ)
  next_nonce key none = call (pending_nonce_at (key_address key))
  next_nonce key (some n) = pure (ok n)

  -- The nonce is kept for the next call, in the arithmetic of uint64.
  take_nonce : Address → Result ℕ → Act World (Result (TransactOpts × ℕ))
  take_nonce from (err e) = pure (err e)
  take_nonce from (ok n) = do
    modify (with_nonce (some ((n + 1) % 2 ^ 64)))
    pure (ok (record { from = from; nonce = int64 n; gas_limit = 10_000_000 }, n))

  with_transactor : ℕ → Result Address → Act World (Result (TransactOpts × ℕ))
  unfolding next_nonce take_nonce
  with_transactor key (err e) = pure (err e)
  with_transactor key (ok from) = do
    kept ← gets (λ s. s.current_nonce)
    n ← next_nonce key kept
    take_nonce from n

  -- `key` is the service's private key, which the callers have found to be set.
  unfoldable pub prepare_transactor : ℕ → Act World (Result (TransactOpts × ℕ))
  unfolding with_transactor
  prepare_transactor key = do
    chain_id ← gets (λ s. s.chain_id)
    with_transactor key (new_keyed_transactor key chain_id)

  module _ (key : ℕ) (submit_fn : TransactOpts → Act World (Result Hash)) where
    submitted_with : ℕ → Result Hash → Act World Attempt
    submitted_with n (ok tx) = pure (accepted n tx)
    submitted_with n (err e) = pure (refused n e)

    submit_prepared : Result (TransactOpts × ℕ) → Act World Attempt
    unfolding submitted_with
    submit_prepared (err e) = pure (unprepared e)
    submit_prepared (ok (auth, n)) = do r ← submit_fn auth; submitted_with n r

    -- Before a retry: the nonce is forgotten, and the wait doubles each time.
    unfoldable pub before_attempt : ℕ → Act World (Unit {0})
    before_attempt zero = pure tt
    before_attempt (suc k) = do
      modify (with_nonce none)
      run (sleep (int64 (2 ^ suc k * 1_000_000_000)))

    -- The body of the loop.
    unfoldable pub attempt_once : ℕ → Act World Attempt
    unfolding submit_prepared
    attempt_once attempt = do
      before_attempt attempt
      prepared ← prepare_transactor key
      submit_prepared prepared

    -- `left` attempts remain; `attempt` were made, with this last nonce and error.
    unfoldable pub attempts_from : ℕ → ℕ → ℕ → Option String → Act World Submission
    attempts_from zero attempt last_nonce last_err s =
        (gave_up last_err last_nonce attempt, (modify (with_nonce none) s).1)
    attempts_from (suc left) attempt last_nonce last_err s =
        let (r, s') = attempt_once attempt s in
        elim r [
          | unprepared e ↦ attempts_from left (suc attempt) last_nonce (some e) s'
          | refused n e ↦ attempts_from left (suc attempt) n (some e) s'
          | accepted n tx ↦ (submitted tx n (suc attempt), s')
        ]

    unfoldable pub submit_with_retry : ℕ → Act World Submission
    unfolding attempts_from
    submit_with_retry max_retries = attempts_from max_retries 0 0 none
