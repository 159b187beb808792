-- ===== src/Processor/Operations/Accepted.antt =====
-- `processIssuance` and `processRevocation` with a proof, a key and a node that takes every
-- transaction.
use zkcertificates_queue_pro.Base.{
  ℕ, ◌+◌, ◌%◌, ◌^◌, ◌≡◌, refl, sym, subst, ap, some, List, [], ◌∷◌, ◌++◌, map, length, ok, arith,
}
use zkcertificates_queue_pro.Base.Int.{ℤ, int64}
use zkcertificates_queue_pro.Evm.Types.{Address, Hash}
use zkcertificates_queue_pro.Logging.Builder.{
  OperationBuilder, generate_operation_id, start_transaction, with_merkle_proof,
}
use zkcertificates_queue_pro.Processor.Types.{Registry, Service, Sent, Backend, State}
use zkcertificates_queue_pro.Processor.Nonce.{submitted}
use zkcertificates_queue_pro.Processor.Nonce.Retry.{SubmissionOf, submit_with_retry-SubmissionOf}
use zkcertificates_queue_pro.Processor.Nonce.Frame.{Frames, submit_with_retry-Frames}
use zkcertificates_queue_pro.Processor.Nonce.Accepting.{
  IsKept, IsAccepting, submit_with_retry-accepted,
}
use zkcertificates_queue_pro.Processor.Operations.{
  Ending, returned, finish_submission, submit_if_keyed, complete_operation, process_issuance,
  process_revocation,
}

-- The call returns, one transaction more is sent for the item, which the node takes, with the nonce
-- that was kept, if any; the next one is kept then, and the key and the chain id stay.
pub record Sends {W : Type 0} (contract : Address) (hash : Hash) (s : State W)
    (e : Ending × State W) : Type 0 where
  pub returns : e.0 ≡ returned
  pub transaction : Sent
  pub sent : e.1.sent ≡ s.sent ++ transaction ∷ []
  pub contract_is : transaction.contract ≡ contract
  pub hash_is : transaction.zk_certificate_hash ≡ hash
  pub taken : (tx : Hash) × (transaction.answer ≡ ok tx)
  pub nonce : ℕ
  pub nonce_is : transaction.opts.nonce ≡ int64 nonce
  pub was_kept : IsKept s.service.current_nonce nonce
  pub next_kept : e.1.service.current_nonce ≡ some ((nonce + 1) % 2 ^ 64)
  pub same_key : e.1.service.private_key ≡ s.service.private_key
  pub same_chain : e.1.service.chain_id ≡ s.service.chain_id

-- Reads of the outside world before do not matter.
pub Sends-world :
    {W : Type 0} {contract : Address} {hash : Hash} (s : State W) (w : W) (e : Ending × State W)
    → Sends contract hash (record s { world = w }) e
    → Sends contract hash s e
Sends-world s w e v = record {
  returns = v.returns;
  transaction = v.transaction;
  sent = v.sent;
  contract_is = v.contract_is;
  hash_is = v.hash_is;
  taken = v.taken;
  nonce = v.nonce;
  nonce_is = v.nonce_is;
  was_kept = v.was_kept;
  next_kept = v.next_kept;
  same_key = v.same_key;
  same_chain = v.same_chain;
}

module _ (b : Backend) (contract : Address) (hash : Hash) (key : ℕ) (chain_id : ℤ)
    (accepting : IsAccepting b key chain_id) where
  open b use {World, Element, bytes32}

  -- A submission that ends at the first attempt sent one transaction.
  SubmissionOf-Sends :
      (leaf : ℕ) (path : List Hash) (op : OperationBuilder) (n tx : ℕ) (s s' : State World)
      → SubmissionOf b key contract leaf hash path 3 s (submitted tx n 1) s'
      → Frames s s'
      → IsKept s.service.current_nonce n
      → Sends contract hash s (finish_submission b op (submitted tx n 1) s')
  unfolding finish_submission
  SubmissionOf-Sends leaf path op n tx s s' ([], t, sent, _, for, answer, _, _, kept) frame was =
      record {
        returns = refl;
        transaction = t;
        sent = sent;
        contract_is = for.contract_is;
        hash_is = for.hash_is;
        taken = (tx, answer);
        nonce = n;
        nonce_is = for.nonce_is;
        was_kept = was;
        next_kept = kept;
        same_key = ap (λ (x : Service). x.private_key) frame.service_same;
        same_chain = ap (λ (x : Service). x.chain_id) frame.service_same;
      }
  SubmissionOf-Sends leaf path op n tx s s' (x ∷ ts, t, _, _, _, _, few, _, _) frame was =
      absurd (omega arith)

  submit_if_keyed-Sends :
      (op : OperationBuilder) (leaf : ℕ) (path : List Hash) (s : State World)
      → s.service.chain_id ≡ chain_id
      → Sends contract hash s (submit_if_keyed b op contract hash leaf path (some key) s)
  unfolding submit_if_keyed
  submit_if_keyed-Sends op leaf path s chain =
      let (t, w) = b.now s.world in
      let s1 : State World = record s { world = w } in
      let (n, tx, e, was) =
        submit_with_retry-accepted b key contract leaf hash path 2 chain_id s1 accepting chain in
      let sub = submit_with_retry-SubmissionOf b key contract leaf hash path 3 s1 in
      rw e (
        Sends-world s w _ (
          SubmissionOf-Sends leaf path (start_transaction t op) n tx s1 _ (rw e at sub)
            (submit_with_retry-Frames b key contract leaf hash path 3 s1) was))

  complete_operation-Sends :
      (op : OperationBuilder) (leaf : ℕ) (path : List Element) (s : State World)
      → s.service.private_key ≡ some key
      → s.service.chain_id ≡ chain_id
      → Sends contract hash s (complete_operation b op contract hash (ok (leaf, path)) s)
  unfolding complete_operation
  complete_operation-Sends op leaf path s keyed chain =
      let (t, w) = b.now s.world in
      let s1 : State World = record s { world = w } in
      let op' = with_merkle_proof t (int64 leaf) (length path) op in
      Sends-world s w _ (
        subst
          (λ o.
            Sends contract hash s1
              (submit_if_keyed b op' contract hash leaf (map bytes32 path) o s1))
          (sym keyed) (submit_if_keyed-Sends op' leaf (map bytes32 path) s1 chain))

module _ (b : Backend) (address : Address) (registry : Registry) (hash : Hash) (queue_index key : ℕ)
    (chain_id : ℤ) (accepting : IsAccepting b key chain_id) where
  open b use {World, Element, hex, get_empty_leaf_proof, get_proof}

  pub process_issuance-Sends :
      (s : State World)
      → ((w : World) → (r : ℕ × List Element) × ((get_empty_leaf_proof (hex address) w).0 ≡ ok r))
      → s.service.private_key ≡ some key
      → s.service.chain_id ≡ chain_id
      → Sends registry.address hash s (process_issuance b address registry hash queue_index s)
  unfolding process_issuance
  process_issuance-Sends s proof keyed chain =
      let (id, w0) = generate_operation_id b.rand_read b.encode_to_string s.world in
      let (t, w1) = b.now w0 in
      let (t', w2) = b.now w1 in
      let ((leaf, path), e) = proof w2 in
      let w3 = (get_empty_leaf_proof (hex address) w2).1 in
      rw e (
        Sends-world s w3 _ (
          complete_operation-Sends b registry.address hash key chain_id accepting _ leaf path
            (record s { world = w3 }) keyed chain))

  pub process_revocation-Sends :
      (s : State World)
      → ((w : World)
          → (r : ℕ × List Element) × ((get_proof (hex address) (b.big_int_string hash) w).0 ≡ ok r))
      → s.service.private_key ≡ some key
      → s.service.chain_id ≡ chain_id
      → Sends registry.address hash s (process_revocation b address registry hash queue_index s)
  unfolding process_revocation
  process_revocation-Sends s proof keyed chain =
      let (id, w0) = generate_operation_id b.rand_read b.encode_to_string s.world in
      let (t, w1) = b.now w0 in
      let (t', w2) = b.now w1 in
      let ((leaf, path), e) = proof w2 in
      let w3 = (get_proof (hex address) (b.big_int_string hash) w2).1 in
      rw e (
        Sends-world s w3 _ (
          complete_operation-Sends b registry.address hash key chain_id accepting _ leaf path
            (record s { world = w3 }) keyed chain))
