-- ===== src/Logging/Builder/Readback.antt =====
-- The log line of an operation tells the whole event.
use text.Mathlib.Text.{◌==◌ as str_eq}
use text.Mathlib.TextEquality.{eq_iff}
use zkcertificates_queue_pro.Base.{
  String, ◌≡◌, refl, sym, inl, inr, Bool-cases, Option, none, some, ◌++◌,
}
use zkcertificates_queue_pro.Logging.Types.{
  RegistryContext, CertificateContext, MerkleProofContext, TransactionContext, TimingContext,
  ErrorContext, OperationEvent,
}
use zkcertificates_queue_pro.Logging.Builder.{
  Value, unless_empty, registry_attrs, certificate_attrs, merkle_attrs, transaction_attrs,
  timing_attrs, error_attrs, attributes,
}
use zkcertificates_queue_pro.Sentry.{find_value}
use zkcertificates_queue_pro.Logging.Builder.Reading.{
  text_of, read_registry, read_certificate, read_merkle, read_transaction, read_timing, read_error,
  read_event, find_skip, find_own, lacks_unless,
}
use zkcertificates_queue_pro.Logging.Builder.Keys.{
  head, from_registry, at_registry, at_certificate, at_merkle, at_transaction, at_timing, at_error,
}

-- Each part of the line tells its context.
registry_back :
    (o : Option RegistryContext) → read_registry (λ k. find_value k (registry_attrs o)) ≡ o
unfolding find_value registry_attrs
registry_back none = refl
registry_back (some r) = refl

merkle_back : (o : Option MerkleProofContext) → read_merkle (λ k. find_value k (merkle_attrs o)) ≡ o
unfolding find_value merkle_attrs
merkle_back none = refl
merkle_back (some m) = refl

timing_back : (o : Option TimingContext) → read_timing (λ k. find_value k (timing_attrs o)) ≡ o
unfolding find_value timing_attrs
timing_back none = refl
timing_back (some t) = refl

error_back : (o : Option ErrorContext) → read_error (λ k. find_value k (error_attrs o)) ≡ o
unfolding find_value error_attrs
error_back none = refl
error_back (some e) = refl

-- An empty text is left out, and read as empty.
text_back : (key value : String) → text_of (find_value key (unless_empty key value)) ≡ value
unfolding find_value unless_empty
text_back key value = elim (Bool-cases (str_eq value "")) [
  | inl empty ↦ rw empty (sym ((eq_iff value "").0 empty))
  | inr given ↦ rw (given, (eq_iff key key).1 refl) refl
]

certificate_back :
    (o : Option CertificateContext) → read_certificate (λ k. find_value k (certificate_attrs o)) ≡ o
unfolding find_value certificate_attrs
certificate_back none = refl
certificate_back (some c) =
    rw
      (
        find_own "cert_guardian" (unless_empty "cert_guardian" c.guardian)
            (unless_empty "cert_queue_index" c.queue_index)
            (lacks_unless "cert_guardian" "cert_queue_index" c.queue_index refl),
        text_back "cert_guardian" c.guardian,
        find_skip "cert_queue_index" (unless_empty "cert_guardian" c.guardian)
            (unless_empty "cert_queue_index" c.queue_index)
            (lacks_unless "cert_queue_index" "cert_guardian" c.guardian refl),
        text_back "cert_queue_index" c.queue_index,
      )
      refl

transaction_back :
    (o : Option TransactionContext) → read_transaction (λ k. find_value k (transaction_attrs o)) ≡ o
unfolding find_value transaction_attrs
transaction_back none = refl
transaction_back (some t) = rw (text_back "tx_hash" t.hash) refl

same_event :
    (x y : OperationEvent)
    → x.operation_id ≡ y.operation_id
    → x.operation_type ≡ y.operation_type
    → x.outcome ≡ y.outcome
    → x.registry ≡ y.registry
    → x.certificate ≡ y.certificate
    → x.merkle_proof ≡ y.merkle_proof
    → x.transaction ≡ y.transaction
    → x.timing ≡ y.timing
    → x.error ≡ y.error
    → x ≡ y
same_event x y a b c d f g h k m = λ i. record {
  operation_id = a i;
  operation_type = b i;
  outcome = c i;
  registry = d i;
  certificate = f i;
  merkle_proof = g i;
  transaction = h i;
  timing = k i;
  error = m i;
}

module _ (e : OperationEvent) where
  abbrev line : String → Option Value
  line k = find_value k (head e ++ from_registry e)

  texts_of :
      (text_of (line "operation_id") ≡ e.operation_id)
      × (text_of (line "operation_type") ≡ e.operation_type)
      × (text_of (line "outcome") ≡ e.outcome)
  unfolding find_value
  texts_of = (refl, refl, refl)

  line_registry : read_registry line ≡ e.registry
  line_registry =
      rw
        (
          at_registry e "registry_name" refl refl refl refl refl refl,
          at_registry e "registry_address" refl refl refl refl refl refl,
        )
        (registry_back e.registry)

  line_certificate : read_certificate line ≡ e.certificate
  line_certificate =
      rw
        (
          at_certificate e "cert_leaf_hash" refl refl refl refl refl refl,
          at_certificate e "cert_guardian" refl refl refl refl refl refl,
          at_certificate e "cert_queue_index" refl refl refl refl refl refl,
        )
        (certificate_back e.certificate)

  line_merkle : read_merkle line ≡ e.merkle_proof
  line_merkle =
      rw
        (
          at_merkle e "merkle_leaf_index" refl refl refl refl refl refl,
          at_merkle e "merkle_proof_length" refl refl refl refl refl refl,
          at_merkle e "merkle_fetch_ms" refl refl refl refl refl refl,
        )
        (merkle_back e.merkle_proof)

  line_transaction : read_transaction line ≡ e.transaction
  line_transaction =
      rw
        (
          at_transaction e "tx_hash" refl refl refl refl refl refl,
          at_transaction e "tx_nonce" refl refl refl refl refl refl,
          at_transaction e "tx_attempts" refl refl refl refl refl refl,
          at_transaction e "tx_submit_ms" refl refl refl refl refl refl,
        )
        (transaction_back e.transaction)

  line_timing : read_timing line ≡ e.timing
  line_timing = rw (at_timing e "total_ms" refl refl refl refl refl refl) (timing_back e.timing)

  line_error : read_error line ≡ e.error
  line_error =
      rw
        (
          at_error e "error_message" refl refl refl refl refl refl,
          at_error e "error_phase" refl refl refl refl refl refl,
        )
        (error_back e.error)

-- The event of an operation can be read off its log line, key by key: the three texts of its head, and
-- each of its contexts with all that it holds. A context that was never set is told from one that was,
-- and a text that the line leaves out was empty.
pub read_event-attributes : (e : OperationEvent) → read_event (λ k. find_value k (attributes e)) ≡ e
unfolding attributes
read_event-attributes e =
    let texts = texts_of e in
    same_event (read_event (line e)) e texts.0 texts.1 texts.2 (line_registry e)
      (line_certificate e) (line_merkle e) (line_transaction e) (line_timing e) (line_error e)
