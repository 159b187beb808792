-- ===== src/Logging/Types.antt =====
-- logging/wide_event.go: the wide event and its contexts.
use zkcertificates_queue_pro.Base.{ℕ, String, Option}
use zkcertificates_queue_pro.Base.Int.{ℤ}

abbrev pub operation_issuance : String
operation_issuance = "issuance"

abbrev pub operation_revocation : String
operation_revocation = "revocation"

abbrev pub outcome_success : String
outcome_success = "success"

abbrev pub outcome_failure : String
outcome_failure = "failure"

abbrev pub outcome_skipped : String
outcome_skipped = "skipped"

pub record RegistryContext : Type 0 where
  pub name : String
  pub address : String

pub record CertificateContext : Type 0 where
  pub leaf_hash : String
  pub guardian : String
  pub queue_index : String

pub record MerkleProofContext : Type 0 where
  pub leaf_index : ℤ
  pub proof_length : ℕ
  pub fetch_ms : ℕ

pub record TransactionContext : Type 0 where
  pub hash : String
  pub nonce : ℕ
  pub attempts : ℕ
  pub submit_ms : ℕ

pub record TimingContext : Type 0 where
  pub total_ms : ℕ

pub record ErrorContext : Type 0 where
  pub message : String
  pub phase : String

pub record OperationEvent : Type 0 where
  pub operation_id : String
  pub operation_type : String
  pub outcome : String
  pub registry : Option RegistryContext
  pub certificate : Option CertificateContext
  pub merkle_proof : Option MerkleProofContext
  pub transaction : Option TransactionContext
  pub timing : Option TimingContext
  pub error : Option ErrorContext
