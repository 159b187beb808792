-- ===== src/Processor/Nonce/Accepting.antt =====
-- `submitWithRetry` against a node that takes every transaction: the first attempt is enough.
use zkcertificates_queue_pro.Base.{ℕ, suc, ◌≡◌, refl, Option, none, some, List, ok}
use zkcertificates_queue_pro.Base.Int.{ℤ, int64}
use zkcertificates_queue_pro.Evm.Types.{Address, Hash}
use zkcertificates_queue_pro.Processor.Types.{TransactOpts, Backend, State}
use zkcertificates_queue_pro.Processor.Nonce.{
  submitted, accepted, next_nonce, take_nonce, with_transactor, prepare_transactor, submit_prepared,
  submitted_with, before_attempt, attempt_once, attempts_from, submit_with_retry,
}
use zkcertificates_queue_pro.Processor.Operations.{submit_operation}

-- The key is good for the chain, and the node tells nonces and takes transactions.
pub record IsAccepting (b : Backend) (key : ℕ) (chain_id : ℤ) : Type 0 where
  pub transactor : (from : Address) × (b.new_keyed_transactor key chain_id ≡ ok from)
  pub pending : (a : Address) (w : b.World) → (n : ℕ) × ((b.pending_nonce_at a w).0 ≡ ok n)
  pub accepts :
      (contract : Address) (auth : TransactOpts) (leaf : ℤ) (hash : Hash) (proof : List Hash)
      (w : b.World)
      → (tx : Hash) × ((b.process_next_operation contract auth leaf hash proof w).0 ≡ ok tx)

-- The nonce is the one kept, if there is one.
abbrev pub IsKept : Option ℕ → ℕ → Type 0
IsKept kept n = (m : ℕ) → kept ≡ some m → n ≡ m

module _ (b : Backend) (key : ℕ) (contract : Address) (leaf : ℕ) (hash : Hash)
    (proof : List Hash) where
  open b use {World}

  taken :
      (from : Address) (kept : Option ℕ) (s : State World)
      → ((a : Address) (w : World) → (n : ℕ) × ((b.pending_nonce_at a w).0 ≡ ok n))
      → let r = next_nonce b key kept s in
        (auth : TransactOpts) × (n : ℕ) × ((take_nonce b from r.0 r.1).0 ≡ ok (auth, n))
        × IsKept kept n
  unfolding next_nonce take_nonce
  taken from none s pending =
      let (n, e) = pending (b.key_address key) s.world in rw (e, take_nonce) (_, n, refl, λ m h. cc)
  taken from (some n) s pending = (_, n, refl, λ m h. cc)

  prepared :
      (chain_id : ℤ) (s : State World)
      → IsAccepting b key chain_id
      → s.service.chain_id ≡ chain_id
      → (auth : TransactOpts) × (n : ℕ) × ((prepare_transactor b key s).0 ≡ ok (auth, n))
        × IsKept s.service.current_nonce n
  unfolding prepare_transactor
  prepared chain_id s v same =
      let (from, e) = v.transactor in
      let good : b.new_keyed_transactor key s.service.chain_id ≡ ok from = rw same e in
      rw (good, with_transactor) (taken from s.service.current_nonce s v.pending)

  first_accepted :
      (chain_id : ℤ) (s : State World)
      → IsAccepting b key chain_id
      → s.service.chain_id ≡ chain_id
      → (n : ℕ) × (tx : Hash) × ((attempt_once b key
            (submit_operation b contract leaf hash proof)
            0
            s).0
          ≡ accepted n tx)
        × IsKept s.service.current_nonce n
  unfolding attempt_once before_attempt submit_operation
  first_accepted chain_id s v same =
      let (auth, n, e, kept) = prepared chain_id s v same in
      let s' = (prepare_transactor b key s).1 in
      let (tx, e') = v.accepts contract auth (int64 leaf) hash proof s'.world in
      (n, tx, rw (e, submit_prepared, e', submitted_with) refl, kept)

  pub submit_with_retry-accepted :
      (max : ℕ) (chain_id : ℤ) (s : State World)
      → IsAccepting b key chain_id
      → s.service.chain_id ≡ chain_id
      → (n : ℕ) × (tx : Hash) × ((submit_with_retry b key
            (submit_operation b contract leaf hash proof)
            (suc max)
            s).0
          ≡ submitted tx n 1)
        × IsKept s.service.current_nonce n
  unfolding submit_with_retry attempts_from
  submit_with_retry-accepted max chain_id s v same =
      let (n, tx, e, kept) = first_accepted chain_id s v same in
      (n, tx, rw (e, attempts_from) refl, kept)
