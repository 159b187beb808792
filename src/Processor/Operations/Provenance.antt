-- ===== src/Processor/Operations/Provenance.antt =====
-- Where the transactions of an operation come from, and what an operation leaves alone.
use zkcertificates_queue_pro.Base.{
  ℕ, ◌≡◌, refl, ap, some, none, List, [], ◌∷◌, ◌++◌, map, append-nil, Result, ok, All, All-append,
}
use zkcertificates_queue_pro.Base.Int.{int64}
use zkcertificates_queue_pro.Evm.Types.{Address, Hash}
use zkcertificates_queue_pro.Processor.Types.{Sent, Backend, State}
use zkcertificates_queue_pro.Processor.Nonce.{with_nonce}
use zkcertificates_queue_pro.Processor.Nonce.Retry.{IsFor, AreRefused}
use zkcertificates_queue_pro.Processor.Operations.Completion.{
  Completed, unproved, keyless, processed, exhausted,
}

module _ (b : Backend) (contract : Address) (hash : Hash) where
  open b use {World, Element, bytes32}

  -- The transaction is for the item, with the leaf and the path of the proof, and the key was set.
  pub record IsFrom (r : Result (ℕ × List Element)) (s : State World) (t : Sent) : Type 0 where
    pub contract_is : t.contract ≡ contract
    pub hash_is : t.zk_certificate_hash ≡ hash
    pub leaf : ℕ
    pub path : List Element
    pub proved : r ≡ ok (leaf, path)
    pub leaf_is : t.leaf_index ≡ int64 leaf
    pub proof_is : t.merkle_proof ≡ map bytes32 path
    pub keyed : (key : ℕ) × (s.service.private_key ≡ some key)

  IsFor-IsFrom :
      (r : Result (ℕ × List Element)) (s : State World) (t : Sent) (key leaf n : ℕ)
      (path : List Element)
      → r ≡ ok (leaf, path)
      → s.service.private_key ≡ some key
      → IsFor b key contract leaf hash (map bytes32 path) n t
      → IsFrom r s t
  IsFor-IsFrom r s t key leaf n path proved keyed v = record {
    contract_is = v.contract_is;
    hash_is = v.hash_is;
    leaf = leaf;
    path = path;
    proved = proved;
    leaf_is = v.leaf_is;
    proof_is = v.proof_is;
    keyed = (key, keyed);
  }

  AreRefused-IsFrom :
      (r : Result (ℕ × List Element)) (s : State World) (key leaf : ℕ) (path : List Element)
      (ts : List Sent)
      → r ≡ ok (leaf, path)
      → s.service.private_key ≡ some key
      → AreRefused b key contract leaf hash (map bytes32 path) ts
      → All (IsFrom r s) ts
  AreRefused-IsFrom r s key leaf path [] proved keyed h = tt
  AreRefused-IsFrom r s key leaf path (t ∷ ts) proved keyed ((n, for, _), h) = (
    IsFor-IsFrom r s t key leaf n path proved keyed for,
    AreRefused-IsFrom r s key leaf path ts proved keyed h,
  )

  pub Completed-IsFrom :
      (r : Result (ℕ × List Element)) (s s' : State World)
      → Completed b contract hash r s s'
      → (ts : List Sent) × (s'.sent ≡ s.sent ++ ts) × All (IsFrom r s) ts
  Completed-IsFrom r s s' (unproved e t op p rep sent same out) =
      ([], rw (append-nil, sent) refl, tt)
  Completed-IsFrom r s s' (keyless leaf path t op p keyed rep sent same out) =
      ([], rw (append-nil, sent) refl, tt)
  Completed-IsFrom r s s'
        (processed leaf path key tx n a t op p keyed
          (ts, last, sent, refused, for, _, _, _, _)
          rep
          same
          out) =
      (
        ts ++ last ∷ [],
        sent,
        All-append (IsFrom r s) ts (last ∷ [])
            (AreRefused-IsFrom r s key leaf path ts p keyed refused)
            (IsFor-IsFrom r s last key leaf n path p keyed for, tt),
      )
  Completed-IsFrom r s s'
        (exhausted leaf path key n a t e op p keyed
          (ts, sent, refused, _, _, _, _)
          rep
          repx
          same
          out) =
      (ts, sent, AreRefused-IsFrom r s key leaf path ts p keyed refused)

  -- All of the service stays but the nonce.
  pub Completed-service :
      (r : Result (ℕ × List Element)) (s s' : State World)
      → Completed b contract hash r s s'
      → with_nonce none s'.service ≡ with_nonce none s.service
  Completed-service r s s' (unproved e t op p rep sent same out) = ap (with_nonce none) same
  Completed-service r s s' (keyless leaf path t op p keyed rep sent same out) =
      ap (with_nonce none) same
  Completed-service r s s' (processed leaf path key tx n a t op p keyed sub rep same out) = same
  Completed-service r s s' (exhausted leaf path key n a t e op p keyed sub rep repx same out) = same
