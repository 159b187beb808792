-- ===== src/Logging/Builder/Keys.antt =====
-- The keys of a log line: each part of the line has its own, so a key is found in that part.
use text.Mathlib.Text.{◌==◌ as str_eq}
use zkcertificates_queue_pro.Base.{
  String, ◌≡◌, refl, ◌∙◌, inl, inr, Bool, Bool-cases, true, false, none, List, [], ◌∷◌, ◌++◌,
  if◌then◌else◌,
}
use zkcertificates_queue_pro.Logging.Types.{OperationEvent}
use zkcertificates_queue_pro.Logging.Builder.{
  Value, str, registry_attrs, certificate_attrs, merkle_attrs, transaction_attrs, timing_attrs,
  error_attrs,
}
use zkcertificates_queue_pro.Sentry.{find_value}
use zkcertificates_queue_pro.Logging.Builder.Reading.{
  NotIn, find_skip, find_own, lacks_registry, lacks_certificate, lacks_merkle, lacks_transaction,
  lacks_timing, lacks_error,
}

-- The keys of each part.
abbrev pub head_keys : List String
head_keys = "operation_id" ∷ "operation_type" ∷ "outcome" ∷ []

abbrev pub registry_keys : List String
registry_keys = "registry_name" ∷ "registry_address" ∷ []

abbrev pub certificate_keys : List String
certificate_keys = "cert_leaf_hash" ∷ "cert_guardian" ∷ "cert_queue_index" ∷ []

abbrev pub merkle_keys : List String
merkle_keys = "merkle_leaf_index" ∷ "merkle_proof_length" ∷ "merkle_fetch_ms" ∷ []

abbrev pub transaction_keys : List String
transaction_keys = "tx_nonce" ∷ "tx_attempts" ∷ "tx_submit_ms" ∷ "tx_hash" ∷ []

abbrev pub timing_keys : List String
timing_keys = "total_ms" ∷ []

abbrev pub error_keys : List String
error_keys = "error_message" ∷ "error_phase" ∷ []

-- Whether none of the keys is `k`.
abbrev is_absent : String → List String → Bool
is_absent k [] = true
is_absent k (x ∷ xs) = if str_eq x k then false else is_absent k xs

abbrev pub Absent : String → List String → Type 0
Absent k xs = is_absent k xs ≡ true

Absent-NotIn : (k : String) (xs : List String) → Absent k xs → NotIn k xs
Absent-NotIn k [] h = tt
Absent-NotIn k (x ∷ xs) h = elim (Bool-cases (str_eq x k)) [
  | inl same ↦ let h' : false ≡ true = rw same at h in cc
  | inr other ↦ (other, Absent-NotIn k xs (rw other at h))
]

module _ (e : OperationEvent) where
  abbrev pub head : List (String × Value)
  head =
      ("operation_id", str e.operation_id)
      ∷ ("operation_type", str e.operation_type)
      ∷ ("outcome", str e.outcome)
      ∷ []

  abbrev pub from_error : List (String × Value)
  from_error = error_attrs e.error

  abbrev pub from_timing : List (String × Value)
  from_timing = timing_attrs e.timing ++ from_error

  abbrev pub from_transaction : List (String × Value)
  from_transaction = transaction_attrs e.transaction ++ from_timing

  abbrev pub from_merkle : List (String × Value)
  from_merkle = merkle_attrs e.merkle_proof ++ from_transaction

  abbrev pub from_certificate : List (String × Value)
  from_certificate = certificate_attrs e.certificate ++ from_merkle

  abbrev pub from_registry : List (String × Value)
  from_registry = registry_attrs e.registry ++ from_certificate

  module _ (k : String) where
    skip_head :
        (rest : List (String × Value))
        → Absent k head_keys
        → find_value k (head ++ rest) ≡ find_value k rest
    unfolding find_value
    skip_head rest h =
        let (id, (type, (outcome, others))) = Absent-NotIn k head_keys h in
        find_skip k head rest (rw (id, type, outcome) refl)

    no_registry : Absent k registry_keys → find_value k (registry_attrs e.registry) ≡ none
    no_registry h = lacks_registry k (Absent-NotIn k registry_keys h) e.registry

    no_certificate :
        Absent k certificate_keys → find_value k (certificate_attrs e.certificate) ≡ none
    no_certificate h = lacks_certificate k (Absent-NotIn k certificate_keys h) e.certificate

    no_merkle : Absent k merkle_keys → find_value k (merkle_attrs e.merkle_proof) ≡ none
    no_merkle h = lacks_merkle k (Absent-NotIn k merkle_keys h) e.merkle_proof

    no_transaction :
        Absent k transaction_keys → find_value k (transaction_attrs e.transaction) ≡ none
    no_transaction h = lacks_transaction k (Absent-NotIn k transaction_keys h) e.transaction

    no_timing : Absent k timing_keys → find_value k (timing_attrs e.timing) ≡ none
    no_timing h = lacks_timing k (Absent-NotIn k timing_keys h) e.timing

    no_error : Absent k error_keys → find_value k (error_attrs e.error) ≡ none
    no_error h = lacks_error k (Absent-NotIn k error_keys h) e.error

    lacks_from_timing : Absent k timing_keys → Absent k error_keys → find_value k from_timing ≡ none
    lacks_from_timing ti er =
        find_skip k (timing_attrs e.timing) from_error (no_timing ti) ∙ no_error er

    lacks_from_transaction :
        Absent k transaction_keys
        → Absent k timing_keys
        → Absent k error_keys
        → find_value k from_transaction ≡ none
    lacks_from_transaction tr ti er =
        find_skip k (transaction_attrs e.transaction) from_timing (no_transaction tr)
        ∙ lacks_from_timing ti er

    lacks_from_merkle :
        Absent k merkle_keys
        → Absent k transaction_keys
        → Absent k timing_keys
        → Absent k error_keys
        → find_value k from_merkle ≡ none
    lacks_from_merkle me tr ti er =
        find_skip k (merkle_attrs e.merkle_proof) from_transaction (no_merkle me)
        ∙ lacks_from_transaction tr ti er

    lacks_from_certificate :
        Absent k certificate_keys
        → Absent k merkle_keys
        → Absent k transaction_keys
        → Absent k timing_keys
        → Absent k error_keys
        → find_value k from_certificate ≡ none
    lacks_from_certificate ce me tr ti er =
        find_skip k (certificate_attrs e.certificate) from_merkle (no_certificate ce)
        ∙ lacks_from_merkle me tr ti er

    lacks_from_registry :
        Absent k registry_keys
        → Absent k certificate_keys
        → Absent k merkle_keys
        → Absent k transaction_keys
        → Absent k timing_keys
        → Absent k error_keys
        → find_value k from_registry ≡ none
    lacks_from_registry re ce me tr ti er =
        find_skip k (registry_attrs e.registry) from_certificate (no_registry re)
        ∙ lacks_from_certificate ce me tr ti er

    pub at_registry :
        Absent k head_keys
        → Absent k certificate_keys
        → Absent k merkle_keys
        → Absent k transaction_keys
        → Absent k timing_keys
        → Absent k error_keys
        → find_value k (head ++ from_registry) ≡ find_value k (registry_attrs e.registry)
    at_registry h ce me tr ti er =
        skip_head from_registry h
        ∙ find_own k (registry_attrs e.registry) from_certificate
            (lacks_from_certificate ce me tr ti er)

    pub at_certificate :
        Absent k head_keys
        → Absent k registry_keys
        → Absent k merkle_keys
        → Absent k transaction_keys
        → Absent k timing_keys
        → Absent k error_keys
        → find_value k (head ++ from_registry) ≡ find_value k (certificate_attrs e.certificate)
    at_certificate h re me tr ti er =
        skip_head from_registry h
        ∙ find_skip k (registry_attrs e.registry) from_certificate (no_registry re)
        ∙ find_own k (certificate_attrs e.certificate) from_merkle (lacks_from_merkle me tr ti er)

    pub at_merkle :
        Absent k head_keys
        → Absent k registry_keys
        → Absent k certificate_keys
        → Absent k transaction_keys
        → Absent k timing_keys
        → Absent k error_keys
        → find_value k (head ++ from_registry) ≡ find_value k (merkle_attrs e.merkle_proof)
    at_merkle h re ce tr ti er =
        skip_head from_registry h
        ∙ find_skip k (registry_attrs e.registry) from_certificate (no_registry re)
        ∙ find_skip k (certificate_attrs e.certificate) from_merkle (no_certificate ce)
        ∙ find_own k (merkle_attrs e.merkle_proof) from_transaction
            (lacks_from_transaction tr ti er)

    pub at_transaction :
        Absent k head_keys
        → Absent k registry_keys
        → Absent k certificate_keys
        → Absent k merkle_keys
        → Absent k timing_keys
        → Absent k error_keys
        → find_value k (head ++ from_registry) ≡ find_value k (transaction_attrs e.transaction)
    at_transaction h re ce me ti er =
        skip_head from_registry h
        ∙ find_skip k (registry_attrs e.registry) from_certificate (no_registry re)
        ∙ find_skip k (certificate_attrs e.certificate) from_merkle (no_certificate ce)
        ∙ find_skip k (merkle_attrs e.merkle_proof) from_transaction (no_merkle me)
        ∙ find_own k (transaction_attrs e.transaction) from_timing (lacks_from_timing ti er)

    pub at_timing :
        Absent k head_keys
        → Absent k registry_keys
        → Absent k certificate_keys
        → Absent k merkle_keys
        → Absent k transaction_keys
        → Absent k error_keys
        → find_value k (head ++ from_registry) ≡ find_value k (timing_attrs e.timing)
    at_timing h re ce me tr er =
        skip_head from_registry h
        ∙ find_skip k (registry_attrs e.registry) from_certificate (no_registry re)
        ∙ find_skip k (certificate_attrs e.certificate) from_merkle (no_certificate ce)
        ∙ find_skip k (merkle_attrs e.merkle_proof) from_transaction (no_merkle me)
        ∙ find_skip k (transaction_attrs e.transaction) from_timing (no_transaction tr)
        ∙ find_own k (timing_attrs e.timing) from_error (no_error er)

    pub at_error :
        Absent k head_keys
        → Absent k registry_keys
        → Absent k certificate_keys
        → Absent k merkle_keys
        → Absent k transaction_keys
        → Absent k timing_keys
        → find_value k (head ++ from_registry) ≡ find_value k (error_attrs e.error)
    at_error h re ce me tr ti =
        skip_head from_registry h
        ∙ find_skip k (registry_attrs e.registry) from_certificate (no_registry re)
        ∙ find_skip k (certificate_attrs e.certificate) from_merkle (no_certificate ce)
        ∙ find_skip k (merkle_attrs e.merkle_proof) from_transaction (no_merkle me)
        ∙ find_skip k (transaction_attrs e.transaction) from_timing (no_transaction tr)
        ∙ find_skip k (timing_attrs e.timing) from_error (no_timing ti)
