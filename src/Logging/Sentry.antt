-- ===== src/Logging/Sentry.antt =====
-- logging/builder.go, `sendToSentry`, and the three ways to end an operation.
use zkcertificates_queue_pro.Base.{ℕ, String, Option, none, some, List, [], ◌∷◌, ◌++◌}
use zkcertificates_queue_pro.Base.Int.{pos}
use zkcertificates_queue_pro.Logging.Types.{
  RegistryContext, CertificateContext, MerkleProofContext, TransactionContext, TimingContext,
  ErrorContext, OperationEvent, outcome_success, outcome_failure, outcome_skipped,
}
use zkcertificates_queue_pro.Logging.Builder.{
  OperationBuilder, Value, str, int, Field, plain, nested, Output, captured, timed, emit,
}

-- `event[key] = …` where the context is set.
abbrev pub entry :
    {A : Type 0} → String → (A → List (String × Value)) → Option A → List (String × Field)
entry key f none = []
entry key f (some a) = (key, nested (f a)) ∷ []

unfoldable pub registry_map : RegistryContext → List (String × Value)
registry_map r = ("name", str r.name) ∷ ("address", str r.address) ∷ []

certificate_map : CertificateContext → List (String × Value)
certificate_map c =
    ("leaf_hash", str c.leaf_hash)
    ∷ ("guardian", str c.guardian)
    ∷ ("queue_index", str c.queue_index)
    ∷ []

merkle_map : MerkleProofContext → List (String × Value)
merkle_map m =
    ("leaf_index", int m.leaf_index)
    ∷ ("proof_length", int (pos m.proof_length))
    ∷ ("fetch_ms", int (pos m.fetch_ms))
    ∷ []

transaction_map : TransactionContext → List (String × Value)
transaction_map t =
    ("hash", str t.hash)
    ∷ ("nonce", int (pos t.nonce))
    ∷ ("attempts", int (pos t.attempts))
    ∷ ("submit_ms", int (pos t.submit_ms))
    ∷ []

timing_map : TimingContext → List (String × Value)
timing_map t = ("total_ms", int (pos t.total_ms)) ∷ []

unfoldable pub error_map : ErrorContext → List (String × Value)
error_map e = ("message", str e.message) ∷ ("phase", str e.phase) ∷ []

-- The map for Sentry; its keys are distinct, so its order does not matter.
unfoldable pub wide_event : OperationEvent → List (String × Field)
unfolding registry_map certificate_map merkle_map transaction_map timing_map error_map
wide_event e =
    (("operation_id", plain e.operation_id)
      ∷ ("operation_type", plain e.operation_type)
      ∷ ("outcome", plain e.outcome)
      ∷ [])
    ++ (entry "registry" registry_map e.registry
        ++ (entry "certificate" certificate_map e.certificate
            ++ (entry "merkle_proof" merkle_map e.merkle_proof
                ++ (entry "transaction" transaction_map e.transaction
                    ++ (entry "timing" timing_map e.timing ++ entry "error" error_map e.error)))))

unfoldable pub error_message : Option ErrorContext → String
error_message none = "operation failed"
error_message (some e) = e.message

unfoldable pub send_to_sentry : OperationEvent → Output
unfolding wide_event error_message
send_to_sentry e = captured (error_message e.error) (wide_event e)

unfoldable pub emit_success : ℕ → OperationBuilder → List Output
unfolding timed emit
emit_success now b = emit (timed now outcome_success b) ∷ []

unfoldable pub emit_failure : ℕ → OperationBuilder → List Output
unfolding timed emit send_to_sentry
emit_failure now b = let e = timed now outcome_failure b in emit e ∷ send_to_sentry e ∷ []

unfoldable pub emit_skipped : ℕ → OperationBuilder → List Output
unfolding timed emit
emit_skipped now b = emit (timed now outcome_skipped b) ∷ []
