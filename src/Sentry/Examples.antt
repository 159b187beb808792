-- ===== src/Sentry/Examples.antt =====
-- The theorem about sentry/sentry.go at an operation whose proof could not be had.
use zkcertificates_queue_pro.Base.{◌≡◌, [], ◌∷◌, length}
use zkcertificates_queue_pro.Logging.Types.{operation_issuance, outcome_failure}
use zkcertificates_queue_pro.Logging.Builder.{
  OperationBuilder, new_operation_builder, with_registry, with_error, timed,
}
use zkcertificates_queue_pro.Logging.Sentry.{emit_success, emit_failure, emit_skipped}
use zkcertificates_queue_pro.Sentry.Reports.{reports, log_lines, report_of, reports-emit}

abbrev unproved : OperationBuilder
unproved =
    with_error "no such leaf" "merkle_proof"
      (with_registry "kyc" "0x07" (new_operation_builder "0a1b2c3d" operation_issuance 0))

reports-emit_example :
    ((reports (emit_success 5_000_000 unproved) ≡ [])
      × (length (log_lines (emit_success 5_000_000 unproved)) ≡ 1))
    × ((reports (emit_skipped 5_000_000 unproved) ≡ [])
        × (length (log_lines (emit_skipped 5_000_000 unproved)) ≡ 1))
    × ((reports (emit_failure 5_000_000 unproved)
          ≡ report_of (timed 5_000_000 outcome_failure unproved) ∷ [])
        × (length (log_lines (emit_failure 5_000_000 unproved)) ≡ 1))
reports-emit_example = reports-emit 5_000_000 unproved
