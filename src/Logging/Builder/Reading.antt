-- ===== src/Logging/Builder/Reading.antt =====
-- What can be read off the log line of an operation, key by key.
use text.Mathlib.Text.{◌==◌ as str_eq}
use zkcertificates_queue_pro.Base.{
  ℕ, String, ◌≡◌, refl, ◌∙◌, inl, inr, Bool-cases, false, Option, none, some, List, [], ◌∷◌, ◌++◌,
}
use zkcertificates_queue_pro.Base.Int.{ℤ, pos, pos_part}
use zkcertificates_queue_pro.Logging.Types.{
  RegistryContext, CertificateContext, MerkleProofContext, TransactionContext, TimingContext,
  ErrorContext, OperationEvent,
}
use zkcertificates_queue_pro.Logging.Builder.{
  Value, str, int, registry_attrs, unless_empty, certificate_attrs, merkle_attrs, transaction_attrs,
  timing_attrs, error_attrs,
}
use zkcertificates_queue_pro.Sentry.{find_value}

-- A text or a number under a key; a text that is missing is empty.
abbrev pub text_of : Option Value → String
text_of none = ""
text_of (some (str s)) = s
text_of (some (int n)) = ""

abbrev pub int_of : Option Value → ℤ
int_of none = pos 0
int_of (some (str s)) = pos 0
int_of (some (int n)) = n

abbrev pub nat_of : Option Value → ℕ
nat_of v = pos_part (int_of v)

-- A context is there if the key is that it always has.
abbrev pub if_there : {A : Type 0} → Option Value → A → Option A
if_there none x = none
if_there (some v) x = some x

-- The event, from what stands under each key.
module _ (at : String → Option Value) where
  abbrev pub read_registry : Option RegistryContext
  read_registry =
      if_there (at "registry_name")
        (record { name = text_of (at "registry_name"); address = text_of (at "registry_address") })

  abbrev pub read_certificate : Option CertificateContext
  read_certificate = if_there (at "cert_leaf_hash") (record {
    leaf_hash = text_of (at "cert_leaf_hash");
    guardian = text_of (at "cert_guardian");
    queue_index = text_of (at "cert_queue_index");
  })

  abbrev pub read_merkle : Option MerkleProofContext
  read_merkle = if_there (at "merkle_leaf_index") (record {
    leaf_index = int_of (at "merkle_leaf_index");
    proof_length = nat_of (at "merkle_proof_length");
    fetch_ms = nat_of (at "merkle_fetch_ms");
  })

  abbrev pub read_transaction : Option TransactionContext
  read_transaction = if_there (at "tx_nonce") (record {
    hash = text_of (at "tx_hash");
    nonce = nat_of (at "tx_nonce");
    attempts = nat_of (at "tx_attempts");
    submit_ms = nat_of (at "tx_submit_ms");
  })

  abbrev pub read_timing : Option TimingContext
  read_timing = if_there (at "total_ms") (record { total_ms = nat_of (at "total_ms") })

  abbrev pub read_error : Option ErrorContext
  read_error =
      if_there (at "error_message")
        (record { message = text_of (at "error_message"); phase = text_of (at "error_phase") })

  abbrev pub read_event : OperationEvent
  read_event = record {
    operation_id = text_of (at "operation_id");
    operation_type = text_of (at "operation_type");
    outcome = text_of (at "outcome");
    registry = read_registry;
    certificate = read_certificate;
    merkle_proof = read_merkle;
    transaction = read_transaction;
    timing = read_timing;
    error = read_error;
  }

-- None of the keys is `k`.
abbrev pub NotIn : String → List String → Type 0
NotIn k [] = Unit
NotIn k (x ∷ xs) = (str_eq x k ≡ false) × NotIn k xs

module _ (k : String) where
  pub find_skip :
      (xs ys : List (String × Value))
      → find_value k xs ≡ none
      → find_value k (xs ++ ys) ≡ find_value k ys
  unfolding find_value
  find_skip [] ys h = refl
  find_skip ((key, v) ∷ xs) ys h = elim (Bool-cases (str_eq key k)) [
    | inl same ↦ let h' = rw same at h in cc
    | inr other ↦ rw other (find_skip xs ys (rw other at h))
  ]

  pub find_own :
      (xs ys : List (String × Value))
      → find_value k ys ≡ none
      → find_value k (xs ++ ys) ≡ find_value k xs
  unfolding find_value
  find_own [] ys h = h
  find_own ((key, v) ∷ xs) ys h = elim (Bool-cases (str_eq key k)) [
    | inl same ↦ rw same refl
    | inr other ↦ rw other (find_own xs ys h)
  ]

  pub lacks_unless :
      (key value : String) → str_eq key k ≡ false → find_value k (unless_empty key value) ≡ none
  unfolding unless_empty find_value
  lacks_unless key value other = elim (Bool-cases (str_eq value "")) [
    | inl empty ↦ rw empty refl
    | inr given ↦ rw (given, other) refl
  ]

  pub lacks_registry :
      NotIn k ("registry_name" ∷ "registry_address" ∷ [])
      → (o : Option RegistryContext) → find_value k (registry_attrs o) ≡ none
  unfolding registry_attrs find_value
  lacks_registry h none = refl
  lacks_registry h (some r) = rw (h.0, h.1.0) refl

  pub lacks_certificate :
      NotIn k ("cert_leaf_hash" ∷ "cert_guardian" ∷ "cert_queue_index" ∷ [])
      → (o : Option CertificateContext) → find_value k (certificate_attrs o) ≡ none
  unfolding certificate_attrs find_value
  lacks_certificate h none = refl
  lacks_certificate h (some r) = rw h.0 (
      find_skip (unless_empty "cert_guardian" r.guardian) _
        (lacks_unless "cert_guardian" r.guardian h.1.0)
      ∙ lacks_unless "cert_queue_index" r.queue_index h.1.1.0)

  pub lacks_merkle :
      NotIn k ("merkle_leaf_index" ∷ "merkle_proof_length" ∷ "merkle_fetch_ms" ∷ [])
      → (o : Option MerkleProofContext) → find_value k (merkle_attrs o) ≡ none
  unfolding merkle_attrs find_value
  lacks_merkle h none = refl
  lacks_merkle h (some r) = rw (h.0, h.1.0, h.1.1.0) refl

  pub lacks_transaction :
      NotIn k ("tx_nonce" ∷ "tx_attempts" ∷ "tx_submit_ms" ∷ "tx_hash" ∷ [])
      → (o : Option TransactionContext) → find_value k (transaction_attrs o) ≡ none
  unfolding transaction_attrs find_value
  lacks_transaction h none = refl
  lacks_transaction h (some t) = rw (h.0, h.1.0, h.1.1.0) (lacks_unless "tx_hash" t.hash h.1.1.1.0)

  pub lacks_timing :
      NotIn k ("total_ms" ∷ []) → (o : Option TimingContext) → find_value k (timing_attrs o) ≡ none
  unfolding timing_attrs find_value
  lacks_timing h none = refl
  lacks_timing h (some t) = rw h.0 refl

  pub lacks_error :
      NotIn k ("error_message" ∷ "error_phase" ∷ [])
      → (o : Option ErrorContext) → find_value k (error_attrs o) ≡ none
  unfolding error_attrs find_value
  lacks_error h none = refl
  lacks_error h (some e) = rw (h.0, h.1.0) refl
