-- ===== src/Logging/Builder.antt =====
-- logging/builder.go: what an operation accumulates, and what is emitted of it. The clock's reading
-- is an argument of each call that takes one, in nanoseconds; an unset time is `none`.
pub mod Reading
pub mod Keys
pub mod Readback
use zkcertificates_queue_pro.Base.{
  ℕ, ◌-◌, ◌/◌, String, Option, none, some, List, [], ◌∷◌, ◌++◌, if◌then◌else◌,
}
use text.Mathlib.Text.{◌==◌ as str_eq}
use zkcertificates_queue_pro.Base.Int.{ℤ, pos}
use zkcertificates_queue_pro.Logging.Types.{
  RegistryContext, CertificateContext, MerkleProofContext, TransactionContext, TimingContext,
  ErrorContext, OperationEvent,
}

pub record OperationBuilder : Type 0 where
  pub event : OperationEvent
  pub start_time : ℕ
  pub merkle_start : Option ℕ
  pub tx_start : Option ℕ

-- A value in a log line or a wide event: a text or an integer.
pub data Value : Type 0 where
  str : String → Value
  int : ℤ → Value

-- A field of the map for Sentry: a text, or a map of its own.
pub data Field : Type 0 where
  plain : String → Field
  nested : List (String × Value) → Field

-- What leaves the process: a log line's attributes, or an error with its wide event for Sentry.
pub data Output : Type 0 where
  logged : List (String × Value) → Output
  captured : String → List (String × Field) → Output

-- `time.Since(t).Milliseconds()`
unfoldable pub elapsed_ms : ℕ → ℕ → ℕ
elapsed_ms now start = (now - start) / 1_000_000

unfoldable pub since_ms : ℕ → Option ℕ → ℕ
unfolding elapsed_ms
since_ms now none = 0
since_ms now (some start) = elapsed_ms now start

-- `rand.Read` of so many bytes, and `hex.EncodeToString`, are Go's.
abbrev pub generate_operation_id :
    {W : Type 0} → (ℕ → W → List ℕ × W) → (List ℕ → String) → W → String × W
generate_operation_id rand_read encode_to_string w =
    let (b, w') = rand_read 4 w in (encode_to_string b, w')

unfoldable pub new_operation_builder : String → String → ℕ → OperationBuilder
new_operation_builder id operation_type now = record {
  event = record {
    operation_id = id;
    operation_type = operation_type;
    outcome = "";
    registry = none;
    certificate = none;
    merkle_proof = none;
    transaction = none;
    timing = none;
    error = none;
  };
  start_time = now;
  merkle_start = none;
  tx_start = none;
}

abbrev with_event : OperationBuilder → OperationEvent → OperationBuilder
with_event b e = record b { event = e }

unfoldable pub with_registry : String → String → OperationBuilder → OperationBuilder
with_registry name address b =
    with_event b (record (b.event) { registry = some (record { name = name; address = address }) })

unfoldable pub with_certificate : String → String → String → OperationBuilder → OperationBuilder
with_certificate leaf_hash guardian queue_index b = with_event b (record (b.event) {
  certificate =
      some (record { leaf_hash = leaf_hash; guardian = guardian; queue_index = queue_index });
})

unfoldable pub start_merkle_proof : ℕ → OperationBuilder → OperationBuilder
start_merkle_proof now b = record b { merkle_start = some now }

unfoldable pub with_merkle_proof : ℕ → ℤ → ℕ → OperationBuilder → OperationBuilder
unfolding since_ms
with_merkle_proof now leaf_index proof_length b = with_event b (record (b.event) {
  merkle_proof = some (record {
    leaf_index = leaf_index;
    proof_length = proof_length;
    fetch_ms = since_ms now b.merkle_start;
  });
})

unfoldable pub start_transaction : ℕ → OperationBuilder → OperationBuilder
start_transaction now b = record b { tx_start = some now }

unfoldable pub with_transaction : ℕ → String → ℕ → ℕ → OperationBuilder → OperationBuilder
unfolding since_ms
with_transaction now hash nonce attempts b = with_event b (record (b.event) {
  transaction = some (record {
    hash = hash;
    nonce = nonce;
    attempts = attempts;
    submit_ms = since_ms now b.tx_start;
  });
})

unfoldable pub with_error : String → String → OperationBuilder → OperationBuilder
with_error message phase b =
    with_event b (record (b.event) { error = some (record { message = message; phase = phase }) })

-- The attributes of each context; a missing context has none.
pub registry_attrs : Option RegistryContext → List (String × Value)
registry_attrs none = []
registry_attrs (some r) = ("registry_name", str r.name) ∷ ("registry_address", str r.address) ∷ []

pub unless_empty : String → String → List (String × Value)
unless_empty key value = if str_eq value "" then [] else (key, str value) ∷ []

pub certificate_attrs : Option CertificateContext → List (String × Value)
unfolding unless_empty
certificate_attrs none = []
certificate_attrs (some c) =
    ("cert_leaf_hash", str c.leaf_hash)
    ∷ (unless_empty "cert_guardian" c.guardian ++ unless_empty "cert_queue_index" c.queue_index)

pub merkle_attrs : Option MerkleProofContext → List (String × Value)
merkle_attrs none = []
merkle_attrs (some m) =
    ("merkle_leaf_index", int m.leaf_index)
    ∷ ("merkle_proof_length", int (pos m.proof_length))
    ∷ ("merkle_fetch_ms", int (pos m.fetch_ms))
    ∷ []

pub transaction_attrs : Option TransactionContext → List (String × Value)
unfolding unless_empty
transaction_attrs none = []
transaction_attrs (some t) =
    ("tx_nonce", int (pos t.nonce))
    ∷ ("tx_attempts", int (pos t.attempts))
    ∷ ("tx_submit_ms", int (pos t.submit_ms))
    ∷ unless_empty "tx_hash" t.hash

pub timing_attrs : Option TimingContext → List (String × Value)
timing_attrs none = []
timing_attrs (some t) = ("total_ms", int (pos t.total_ms)) ∷ []

pub error_attrs : Option ErrorContext → List (String × Value)
error_attrs none = []
error_attrs (some e) = ("error_message", str e.message) ∷ ("error_phase", str e.phase) ∷ []

unfoldable pub attributes : OperationEvent → List (String × Value)
unfolding registry_attrs certificate_attrs merkle_attrs transaction_attrs timing_attrs error_attrs
attributes e =
    (("operation_id", str e.operation_id)
      ∷ ("operation_type", str e.operation_type)
      ∷ ("outcome", str e.outcome)
      ∷ [])
    ++ (registry_attrs e.registry
        ++ (certificate_attrs e.certificate
            ++ (merkle_attrs e.merkle_proof
                ++ (transaction_attrs e.transaction
                    ++ (timing_attrs e.timing ++ error_attrs e.error)))))

-- `emit` sets the timing, and logs.
unfoldable pub timed : ℕ → String → OperationBuilder → OperationEvent
unfolding elapsed_ms
timed now outcome b = record (b.event) {
  outcome = outcome;
  timing = some (record { total_ms = elapsed_ms now b.start_time });
}

unfoldable pub emit : OperationEvent → Output
unfolding attributes
emit e = logged (attributes e)
