-- ===== src/Logging/Examples.antt =====
-- The theorems about logging/, at an operation that failed, and at an environment that asks for text
-- and for warnings.
use text.Mathlib.Text.{◌==◌ as str_eq}
use zkcertificates_queue_pro.Base.{String, ◌≡◌, if◌then◌else◌}
use zkcertificates_queue_pro.Logging.Types.{OperationEvent, operation_revocation, outcome_failure}
use zkcertificates_queue_pro.Logging.Builder.{
  new_operation_builder, with_registry, with_error, timed, attributes,
}
use zkcertificates_queue_pro.Sentry.{find_value}
use zkcertificates_queue_pro.Logging.Builder.Reading.{read_event}
use zkcertificates_queue_pro.Logging.Builder.Readback.{read_event-attributes}
use zkcertificates_queue_pro.Logging.Config.{
  config_from_env, new_logger, text_handler, json_handler,
}
use zkcertificates_queue_pro.Logging.Config.Table.{
  levels, level_named, lowered, new_logger-config_from_env,
}

getenv : String → String
getenv name = if str_eq name "LOG_LEVEL" then "Warning" else "TEXT"

to_lower : String → String
to_lower text =
    if str_eq text "Warning" then "warning" else if str_eq text "TEXT" then "text" else text

new_logger-config_from_env_example :
    let logger = new_logger (config_from_env getenv to_lower) in
    (logger.level ≡ level_named (lowered getenv to_lower "LOG_LEVEL") levels)
    × (logger.handler ≡ (
        if str_eq (lowered getenv to_lower "LOG_FORMAT") "text"
        then text_handler
        else json_handler))
new_logger-config_from_env_example = new_logger-config_from_env getenv to_lower

abbrev event : OperationEvent
event = timed 5_000_000 outcome_failure (
    with_error "no such leaf" "merkle_proof"
      (with_registry "kyc" "0x07" (new_operation_builder "0a1b2c3d" operation_revocation 0)))

read_event-attributes_example : read_event (λ k. find_value k (attributes event)) ≡ event
read_event-attributes_example = read_event-attributes event
