-- ===== src/Processor/Operations.antt =====
-- queueprocessor/processor.go: `processIssuance` and `processRevocation`. The two end alike, from
-- the merkle proof on: `complete_operation`.
pub mod Completion
pub mod Accepted
pub mod Provenance
use zkcertificates_queue_pro.Base.{
  ℕ, String, Bool, Option, none, some, List, [], ◌∷◌, map, length, Result, ok, err,
}
use zkcertificates_queue_pro.Base.Int.{ℤ, int64}
use zkcertificates_queue_pro.Evm.Types.{Address, Hash}
use zkcertificates_queue_pro.Logging.Types.{operation_issuance, operation_revocation}
use zkcertificates_queue_pro.Logging.Builder.{
  OperationBuilder, generate_operation_id, new_operation_builder, with_registry, with_certificate,
  start_merkle_proof, with_merkle_proof, start_transaction, with_transaction, with_error,
}
use zkcertificates_queue_pro.Logging.Sentry.{emit_success, emit_failure, emit_skipped}
use zkcertificates_queue_pro.Processor.Types.{Registry, TransactOpts, Sent, Backend, State, Act}
use zkcertificates_queue_pro.Processor.Act.{◌>>=◌, ◌>>◌, pure, call, gets, put_sent, emits}
use zkcertificates_queue_pro.Processor.Nonce.{Submission, submitted, gave_up, submit_with_retry}

-- A call returns, or panics at the type assertion on the result of the submission.
pub data Ending : Type 0 where
  returned panicked : Ending

module _ (b : Backend) where
  open b use {
    World, Element, process_next_operation, get_empty_leaf_proof, get_proof, now, rand_read,
    encode_to_string, bytes32, hex, hash_hex, bytes_to_hex,
  }

  -- The closure that is handed to `submitWithRetry`.
  unfoldable pub submit_operation :
      Address → ℕ → Hash → List Hash → TransactOpts → Act World (Result Hash)
  submit_operation contract leaf_index hash proof auth = do
    r ← call (process_next_operation contract auth (int64 leaf_index) hash proof)
    put_sent (record {
      contract = contract;
      opts = auth;
      leaf_index = int64 leaf_index;
      zk_certificate_hash = hash;
      merkle_proof = proof;
      answer = r;
    })
    pure r

  finish_submission : OperationBuilder → Submission → Act World Ending
  finish_submission op (gave_up none nonce attempts) = pure panicked
  finish_submission op (gave_up (some e) nonce attempts) = do
    t ← call now
    t' ← call now
    emits (emit_failure t' (with_error e "transaction" (with_transaction t "" nonce attempts op)))
    pure returned
  finish_submission op (submitted tx nonce attempts) = do
    t ← call now
    t' ← call now
    emits (emit_success t' (with_transaction t (hash_hex tx) nonce attempts op))
    pure returned

  submit_if_keyed : OperationBuilder → Address → Hash → ℕ → List Hash → Option ℕ → Act World Ending
  unfolding finish_submission
  submit_if_keyed op contract hash leaf_index proof none = do
    t ← call now
    emits (emit_skipped t (with_error "no private key configured" "config" op))
    pure returned
  submit_if_keyed op contract hash leaf_index proof (some key) = do
    t ← call now
    r ← submit_with_retry b key (submit_operation contract leaf_index hash proof) 3
    finish_submission (start_transaction t op) r

  unfoldable pub complete_operation :
      OperationBuilder → Address → Hash → Result (ℕ × List Element) → Act World Ending
  unfolding submit_if_keyed
  complete_operation op contract hash (err e) = do
    t ← call now
    emits (emit_failure t (with_error e "merkle_proof" op))
    pure returned
  complete_operation op contract hash (ok (leaf_index, path)) = do
    t ← call now
    key ← gets (λ s. s.private_key)
    submit_if_keyed (with_merkle_proof t (int64 leaf_index) (length path) op) contract hash
        leaf_index (map bytes32 path) key

  -- The builder up to the start of the request for a proof.
  begin_operation : String → Address → Registry → Hash → ℕ → Act World OperationBuilder
  begin_operation kind address registry hash queue_index = do
    id ← call (generate_operation_id rand_read encode_to_string)
    t ← call now
    t' ← call now
    pure (
        start_merkle_proof t' (
          with_certificate (bytes_to_hex hash) "" (b.big_int_string queue_index)
            (with_registry registry.name (hex address) (new_operation_builder id kind t))))

  unfoldable pub process_issuance : Address → Registry → Hash → ℕ → Act World Ending
  unfolding begin_operation
  process_issuance address registry hash queue_index = do
    op ← begin_operation operation_issuance address registry hash queue_index
    proof ← call (get_empty_leaf_proof (hex address))
    complete_operation op registry.address hash proof

  unfoldable pub process_revocation : Address → Registry → Hash → ℕ → Act World Ending
  unfolding begin_operation
  process_revocation address registry hash queue_index = do
    op ← begin_operation operation_revocation address registry hash queue_index
    proof ← call (get_proof (hex address) (b.big_int_string hash))
    complete_operation op registry.address hash proof
