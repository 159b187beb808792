-- ===== src/Processor/Queue/Provenance.antt =====
-- Why a check of a registry's queue sends what it sends.
use zkcertificates_queue_pro.Base.{
  ℕ, ◌≡◌, refl, sym, subst, ap, ◌⊎◌, inl, inr, some, none, List, [], ◌++◌, map, append-nil, Result,
  ok, All, All-map,
}
use zkcertificates_queue_pro.Base.Int.{int64}
use zkcertificates_queue_pro.Evm.Types.{Address, Hash}
use zkcertificates_queue_pro.Processor.Types.{
  Registry, CertificateData, Sent, Backend, State, certificate_state_issuance_queued,
  certificate_state_revocation_queued,
}
use zkcertificates_queue_pro.Processor.Nonce.{with_nonce}
use zkcertificates_queue_pro.Processor.Operations.Provenance.{
  IsFrom, Completed-IsFrom, Completed-service,
}
use zkcertificates_queue_pro.Processor.Queue.Checks.{IsDue, Checked, left_alone, issued, revoked}

module _ (b : Backend) (address : Address) (registry : Registry) where
  open b use {World, Element, bytes32, hex, get_empty_leaf_proof, get_proof}

  -- The proof service answered with this leaf and path: to a request for an empty leaf where an
  -- issuance is queued, and for the leaf of the certificate where a revocation is.
  abbrev pub IsProved : Hash → CertificateData → ℕ → List Element → Type 0
  IsProved hash cert leaf path =
      ((cert.state ≡ certificate_state_issuance_queued)
        × ((w : World) × ((get_empty_leaf_proof (hex address) w).0 ≡ ok (leaf, path))))
      ⊎ ((cert.state ≡ certificate_state_revocation_queued)
          × ((w : World) × ((get_proof (hex address) (b.big_int_string hash) w).0
                ≡ ok (leaf, path))))

  -- The transaction is for the contract of the registry, and for an item that was due there, with a
  -- proof of the service that its state calls for.
  pub record IsJustified (t : Sent) : Type 0 where
    pub contract_is : t.contract ≡ registry.address
    pub cert : CertificateData
    pub due : IsDue b address registry t.zk_certificate_hash cert
    pub leaf : ℕ
    pub path : List Element
    pub proved : IsProved t.zk_certificate_hash cert leaf path
    pub leaf_is : t.leaf_index ≡ int64 leaf
    pub proof_is : t.merkle_proof ≡ map bytes32 path

  -- With the key that was set.
  abbrev pub IsSentWith : State World → Sent → Type 0
  IsSentWith s t = IsJustified t × ((key : ℕ) × (s.service.private_key ≡ some key))

  IsFrom-IsSentWith :
      (hash : Hash) (cert : CertificateData) (r : Result (ℕ × List Element)) (s : State World)
      → IsDue b address registry hash cert
      → ((leaf : ℕ) (path : List Element) → r ≡ ok (leaf, path) → IsProved hash cert leaf path)
      → (t : Sent) → IsFrom b registry.address hash r s t
      → IsSentWith s t
  IsFrom-IsSentWith hash cert r s due proved t v = (
    record {
      contract_is = v.contract_is;
      cert = cert;
      due = subst (λ h. IsDue b address registry h cert) (sym v.hash_is) due;
      leaf = v.leaf;
      path = v.path;
      proved =
          subst (λ h. IsProved h cert v.leaf v.path) (sym v.hash_is)
            (proved v.leaf v.path v.proved);
      leaf_is = v.leaf_is;
      proof_is = v.proof_is;
    },
    v.keyed,
  )

  pub Checked-IsSentWith :
      (s s' : State World)
      → Checked b address registry s s'
      → (ts : List Sent) × (s'.sent ≡ s.sent ++ ts) × All (IsSentWith s) ts
  Checked-IsSentWith s s' (left_alone sent same out) = ([], rw (append-nil, sent) refl, tt)
  Checked-IsSentWith s s' (issued hash cert due state w e) =
      let r = (get_empty_leaf_proof (hex address) w).0 in
      let (ts, sent, all) = Completed-IsFrom b registry.address hash r s s' e in
      (
        ts,
        sent,
        All-map (IsFrom b registry.address hash r s) (IsSentWith s) ts
            (IsFrom-IsSentWith hash cert r s due (λ leaf path p. inl (state, (w, p)))) all,
      )
  Checked-IsSentWith s s' (revoked hash cert due state w e) =
      let r = (get_proof (hex address) (b.big_int_string hash) w).0 in
      let (ts, sent, all) = Completed-IsFrom b registry.address hash r s s' e in
      (
        ts,
        sent,
        All-map (IsFrom b registry.address hash r s) (IsSentWith s) ts
            (IsFrom-IsSentWith hash cert r s due (λ leaf path p. inr (state, (w, p)))) all,
      )

  pub Checked-service :
      (s s' : State World)
      → Checked b address registry s s'
      → with_nonce none s'.service ≡ with_nonce none s.service
  Checked-service s s' (left_alone sent same out) = ap (with_nonce none) same
  Checked-service s s' (issued hash cert due state w e) =
      Completed-service b registry.address hash _ s s' e
  Checked-service s s' (revoked hash cert due state w e) =
      Completed-service b registry.address hash _ s s' e
