-- ===== src/Processor/Operations/Completion.antt =====
-- How `processIssuance` and `processRevocation` end, on every branch.
use zkcertificates_queue_pro.Base.{
  ℕ, ◌≡◌, refl, ap, String, Option, none, some, List, ◌++◌, map, length, Result, ok, err, arith,
}
use zkcertificates_queue_pro.Base.Int.{int64}
use zkcertificates_queue_pro.Evm.Types.{Address, Hash}
use zkcertificates_queue_pro.Logging.Builder.{
  OperationBuilder, generate_operation_id, start_transaction, with_transaction, with_merkle_proof,
  with_error,
}
use zkcertificates_queue_pro.Logging.Sentry.{emit_success, emit_failure, emit_skipped}
use zkcertificates_queue_pro.Processor.Types.{Registry, Backend, State}
use zkcertificates_queue_pro.Processor.Nonce.{
  Submission, submitted, gave_up, with_nonce, submit_with_retry,
}
use zkcertificates_queue_pro.Processor.Nonce.Retry.{SubmissionOf, submit_with_retry-SubmissionOf}
use zkcertificates_queue_pro.Processor.Nonce.Frame.{Frames, submit_with_retry-Frames}
use zkcertificates_queue_pro.Processor.Operations.{
  Ending, returned, submit_operation, finish_submission, submit_if_keyed, complete_operation,
  process_issuance, process_revocation,
}

-- The log line reports this error.
abbrev pub Reports : String → String → OperationBuilder → Type 0
Reports message phase op = op.event.error ≡ some (record { message = message; phase = phase })

-- The log line reports this transaction.
abbrev pub ReportsTransaction : String → ℕ → ℕ → OperationBuilder → Type 0
ReportsTransaction hash nonce attempts op =
    (ms : ℕ) × (op.event.transaction
      ≡ some (record { hash = hash; nonce = nonce; attempts = attempts; submit_ms = ms }))

module _ (b : Backend) (contract : Address) (hash : Hash) where
  open b use {World, Element, bytes32, hash_hex}

  -- From `s` to `s'`, given the answer `r` of the merkle proof service. Each case logs one line.
  pub data Completed (r : Result (ℕ × List Element)) (s s' : State World) : Type 0 where
    -- No proof: nothing is sent, and the failure is reported.
    unproved :
        (e : String) (t : ℕ) (op : OperationBuilder)
        → r ≡ err e
        → Reports e "merkle_proof" op
        → s'.sent ≡ s.sent
        → s'.service ≡ s.service
        → s'.outputs ≡ s.outputs ++ emit_failure t op
        → Completed r s s'
    -- No key: nothing is sent, and the operation counts as skipped.
    keyless :
        (leaf : ℕ) (path : List Element) (t : ℕ) (op : OperationBuilder)
        → r ≡ ok (leaf, path)
        → s.service.private_key ≡ none
        → Reports "no private key configured" "config" op
        → s'.sent ≡ s.sent
        → s'.service ≡ s.service
        → s'.outputs ≡ s.outputs ++ emit_skipped t op
        → Completed r s s'
    -- The node took a transaction with the leaf and the proof: the success is reported.
    processed :
        (leaf : ℕ) (path : List Element) (key tx nonce attempts t : ℕ) (op : OperationBuilder)
        → r ≡ ok (leaf, path)
        → s.service.private_key ≡ some key
        → SubmissionOf b key contract leaf hash
            (map bytes32 path)
            3
            s
            (submitted tx nonce attempts)
            s'
        → ReportsTransaction (hash_hex tx) nonce attempts op
        → with_nonce none s'.service ≡ with_nonce none s.service
        → s'.outputs ≡ s.outputs ++ emit_success t op
        → Completed r s s'
    -- Three attempts failed: the last error is reported.
    exhausted :
        (leaf : ℕ) (path : List Element) (key nonce attempts t : ℕ) (e : String)
        (op : OperationBuilder)
        → r ≡ ok (leaf, path)
        → s.service.private_key ≡ some key
        → SubmissionOf b key contract leaf hash
            (map bytes32 path)
            3
            s
            (gave_up (some e) nonce attempts)
            s'
        → Reports e "transaction" op
        → ReportsTransaction "" nonce attempts op
        → with_nonce none s'.service ≡ with_nonce none s.service
        → s'.outputs ≡ s.outputs ++ emit_failure t op
        → Completed r s s'

  -- How a call ends: it returns, and the state is as one of these says.
  abbrev pub Ends : Result (ℕ × List Element) → State World → Ending × State World → Type 0
  Ends r s e = (e.0 ≡ returned) × Completed r s e.1

  -- Reads of the outside world before do not matter.
  Completed-world :
      (r : Result (ℕ × List Element)) (s s' : State World) (w : World)
      → Completed r (record s { world = w }) s'
      → Completed r s s'
  Completed-world r s s' w (unproved e t op p rep sent same out) =
      unproved e t op p rep sent same out
  Completed-world r s s' w (keyless leaf path t op p keyed rep sent same out) =
      keyless leaf path t op p keyed rep sent same out
  Completed-world r s s' w (processed leaf path key tx n a t op p keyed sub rep same out) =
      processed leaf path key tx n a t op p keyed sub rep same out
  Completed-world r s s' w (exhausted leaf path key n a t e op p keyed sub rep repx same out) =
      exhausted leaf path key n a t e op p keyed sub rep repx same out

  pub Ends-world :
      (r : Result (ℕ × List Element)) (s : State World) (w : World) (e : Ending × State World)
      → Ends r (record s { world = w }) e
      → Ends r s e
  Ends-world r s w e h = (h.0, Completed-world r s e.1 w h.1)

  finish_submission-Ends :
      (key leaf : ℕ) (path : List Element) (op : OperationBuilder) (r : Submission)
      (s s' : State World)
      → s.service.private_key ≡ some key
      → SubmissionOf b key contract leaf hash (map bytes32 path) 3 s r s'
      → Frames s s'
      → Ends (ok (leaf, path)) s (finish_submission b op r s')
  unfolding finish_submission with_transaction with_error
  finish_submission-Ends key leaf path op (gave_up none n a) s s' keyed
        (_, _, _, _, _, _, some_error) frame =
      let (x, impossible) = some_error (omega arith) in cc impossible
  finish_submission-Ends key leaf path op (gave_up (some e) n a) s s' keyed sub frame =
      let (t, w) = b.now s'.world in
      let (t', _) = b.now w in
      let op' = with_error e "transaction" (with_transaction t "" n a op) in
      (
        refl,
        exhausted leaf path key n a t' e op' refl keyed sub refl (_, refl) frame.service_same
            (ap (λ o. o ++ emit_failure t' op') frame.outputs_same),
      )
  finish_submission-Ends key leaf path op (submitted tx n a) s s' keyed sub frame =
      let (t, w) = b.now s'.world in
      let (t', _) = b.now w in
      let op' = with_transaction t (hash_hex tx) n a op in
      (
        refl,
        processed leaf path key tx n a t' op' refl keyed sub (_, refl) frame.service_same
            (ap (λ o. o ++ emit_success t' op') frame.outputs_same),
      )

  submit_if_keyed-Ends :
      (leaf : ℕ) (path : List Element) (op : OperationBuilder) (key : Option ℕ) (s : State World)
      → s.service.private_key ≡ key
      → Ends (ok (leaf, path)) s (submit_if_keyed b op contract hash leaf (map bytes32 path) key s)
  unfolding submit_if_keyed with_error
  submit_if_keyed-Ends leaf path op none s keyed =
      (refl, keyless leaf path _ _ refl keyed refl refl refl refl)
  submit_if_keyed-Ends leaf path op (some key) s keyed =
      let (t, w) = b.now s.world in
      let s1 = record s { world = w } in
      let submit = submit_operation b contract leaf hash (map bytes32 path) in
      let (r, s') = submit_with_retry b key submit 3 s1 in
      Ends-world (ok (leaf, path)) s w _ (
        finish_submission-Ends key leaf path (start_transaction t op) r s1 s' keyed
          (submit_with_retry-SubmissionOf b key contract leaf hash (map bytes32 path) 3 s1)
          (submit_with_retry-Frames b key contract leaf hash (map bytes32 path) 3 s1))

  complete_operation-Ends :
      (op : OperationBuilder) (r : Result (ℕ × List Element)) (s : State World)
      → Ends r s (complete_operation b op contract hash r s)
  unfolding complete_operation with_error
  complete_operation-Ends op (err e) s = (refl, unproved e _ _ refl refl refl refl refl)
  complete_operation-Ends op (ok (leaf, path)) s =
      let (t, w) = b.now s.world in
      Ends-world (ok (leaf, path)) s w _ (
        submit_if_keyed-Ends leaf path (with_merkle_proof t (int64 leaf) (length path) op)
          s.service.private_key (record s { world = w }) refl)

module _ (b : Backend) (address : Address) (registry : Registry) (hash : Hash)
    (queue_index : ℕ) where
  open b use {World, hex, get_empty_leaf_proof, get_proof}

  -- `processIssuance` returns, and ends in one of the four ways of `Completed` for the contract and
  -- the hash it was given, with an answer of the merkle proof service to a request for an empty leaf
  -- of the registry.
  pub process_issuance-Ends :
      (s : State World)
      → (w : World) × Ends b registry.address hash
          (get_empty_leaf_proof (hex address) w).0
          s
          (process_issuance b address registry hash queue_index s)
  unfolding process_issuance
  process_issuance-Ends s =
      let (id, w0) = generate_operation_id b.rand_read b.encode_to_string s.world in
      let (t, w1) = b.now w0 in
      let (t', w2) = b.now w1 in
      let (r, w3) = get_empty_leaf_proof (hex address) w2 in
      (
        w2,
        Ends-world b registry.address hash r s w3 _
            (complete_operation-Ends b registry.address hash _ r (record s { world = w3 })),
      )

  -- `processRevocation` returns, and ends in one of the four ways of `Completed` for the contract and
  -- the hash it was given, with an answer of the merkle proof service to a request for the leaf of
  -- the registry that the text of the hash (`String` of `big.Int`) names.
  pub process_revocation-Ends :
      (s : State World)
      → (w : World) × Ends b registry.address hash
          (get_proof (hex address) (b.big_int_string hash) w).0
          s
          (process_revocation b address registry hash queue_index s)
  unfolding process_revocation
  process_revocation-Ends s =
      let (id, w0) = generate_operation_id b.rand_read b.encode_to_string s.world in
      let (t, w1) = b.now w0 in
      let (t', w2) = b.now w1 in
      let (r, w3) = get_proof (hex address) (b.big_int_string hash) w2 in
      (
        w2,
        Ends-world b registry.address hash r s w3 _
            (complete_operation-Ends b registry.address hash _ r (record s { world = w3 })),
      )
