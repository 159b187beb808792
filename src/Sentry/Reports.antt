-- ===== src/Sentry/Reports.antt =====
-- What reaches Sentry of the operations that logging/builder.go ends.
use text.Mathlib.Text.{◌==◌ as str_eq}
use zkcertificates_queue_pro.Base.{
  ℕ, String, ◌≡◌, refl, false, Option, none, some, List, [], ◌∷◌, ◌++◌, length,
}
use zkcertificates_queue_pro.Logging.Types.{
  RegistryContext, ErrorContext, OperationEvent, outcome_failure,
}
use zkcertificates_queue_pro.Logging.Builder.{
  OperationBuilder, Value, Field, Output, logged, captured, timed,
}
use zkcertificates_queue_pro.Logging.Sentry.{
  entry, registry_map, error_map, wide_event, error_message, emit_success, emit_failure,
  emit_skipped,
}
use zkcertificates_queue_pro.Sentry.{
  Report, find_field, find_value, wide_tags, registry_tags, error_tags, capture_wide_event,
}

-- The reports among what an operation emits.
pub reports : List Output → List Report
reports [] = []
reports (logged attrs ∷ outputs) = reports outputs
reports (captured message event ∷ outputs) =
    capture_wide_event (some message) event ++ reports outputs

-- The log lines among it.
pub log_lines : List Output → List (List (String × Value))
log_lines [] = []
log_lines (logged attrs ∷ outputs) = attrs ∷ log_lines outputs
log_lines (captured message event ∷ outputs) = log_lines outputs

pub of_registry : Option RegistryContext → List (String × String)
of_registry none = []
of_registry (some r) = ("registry_name", r.name) ∷ ("registry_address", r.address) ∷ []

pub of_error : Option ErrorContext → List (String × String)
of_error none = []
of_error (some e) = ("error_phase", e.phase) ∷ []

-- The report that an event should make: tags for what reports are searched by.
pub report_of : OperationEvent → Report
report_of e = record {
  tags =
      ("operation_id", e.operation_id)
      ∷ ("operation_type", e.operation_type)
      ∷ ("outcome", e.outcome)
      ∷ (of_registry e.registry ++ of_error e.error);
  context = wide_event e;
  exception = error_message e.error;
}

-- A key that an entry does not have is looked for behind it.
find_field-entry :
    (key k : String)
    → str_eq k key ≡ false
    → {A : Type 0} (f : A → List (String × Value)) (o : Option A) (rest : List (String × Field))
    → find_field key (entry k f o ++ rest) ≡ find_field key rest
unfolding find_field
find_field-entry key k other f none rest = refl
find_field-entry key k other f (some a) rest = rw other refl

error_tags-entry :
    (x : Option ErrorContext)
    → error_tags (find_field "error" (entry "error" error_map x)) ≡ of_error x
unfolding find_field find_value error_tags of_error error_map
error_tags-entry none = refl
error_tags-entry (some x) = refl

error_tags-wide_event :
    (e : OperationEvent) → error_tags (find_field "error" (wide_event e)) ≡ of_error e.error
unfolding wide_event find_field
error_tags-wide_event e =
    rw
      (
        find_field-entry "error" "registry" refl,
        find_field-entry "error" "certificate" refl,
        find_field-entry "error" "merkle_proof" refl,
        find_field-entry "error" "transaction" refl,
        find_field-entry "error" "timing" refl,
      )
      (error_tags-entry e.error)

registry_tags-entry :
    (r : Option RegistryContext) (rest : List (String × Field))
    → find_field "registry" rest ≡ none
    → registry_tags (find_field "registry" (entry "registry" registry_map r ++ rest))
      ≡ of_registry r
unfolding find_field find_value registry_tags of_registry registry_map
registry_tags-entry none rest h = rw h refl
registry_tags-entry (some r) rest h = refl

no_registry : (x : Option ErrorContext) → find_field "registry" (entry "error" error_map x) ≡ none
unfolding find_field
no_registry none = refl
no_registry (some x) = refl

registry_tags-wide_event :
    (e : OperationEvent)
    → registry_tags (find_field "registry" (wide_event e)) ≡ of_registry e.registry
unfolding wide_event find_field
registry_tags-wide_event e = registry_tags-entry e.registry _ (
    rw
      (
        find_field-entry "registry" "certificate" refl,
        find_field-entry "registry" "merkle_proof" refl,
        find_field-entry "registry" "transaction" refl,
        find_field-entry "registry" "timing" refl,
      )
      (no_registry e.error))

wide_tags-wide_event : (e : OperationEvent) → wide_tags (wide_event e) ≡ (report_of e).tags
unfolding wide_tags report_of wide_event find_field
wide_tags-wide_event e = rw (registry_tags-wide_event, error_tags-wide_event) refl

-- What is emitted is one log line for each way to end; Sentry gets one report of a failure, with its
-- identifier, its kind and its outcome, the registry and the phase as far as they are known, the whole
-- event as context and the error's message, and none of a success or of a skipped operation.
pub reports-emit :
    (now : ℕ) (b : OperationBuilder)
    → ((reports (emit_success now b) ≡ []) × (length (log_lines (emit_success now b)) ≡ 1))
      × ((reports (emit_skipped now b) ≡ []) × (length (log_lines (emit_skipped now b)) ≡ 1))
      × ((reports (emit_failure now b) ≡ report_of (timed now outcome_failure b) ∷ [])
          × (length (log_lines (emit_failure now b)) ≡ 1))
unfolding reports log_lines emit_success emit_skipped emit_failure capture_wide_event report_of
reports-emit now b = (
  (refl, refl),
  (refl, refl),
  (rw (wide_tags-wide_event (timed now outcome_failure b)) refl, refl),
)
