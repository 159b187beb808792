-- ===== src/Sentry.antt =====
-- sentry/sentry.go: the report that `CaptureWideEvent` sends.
pub mod Reports
mod Examples
use text.Mathlib.Text.{◌==◌ as str_eq}
use zkcertificates_queue_pro.Base.{String, Option, none, some, List, [], ◌∷◌, ◌++◌, if◌then◌else◌}
use zkcertificates_queue_pro.Logging.Builder.{Value, str, int, Field, plain, nested}

-- What the scope holds when `CaptureException` is called: the tags in the order they are set, the
-- wide event as the context, and the error's message.
pub record Report : Type 0 where
  pub tags : List (String × String)
  pub context : List (String × Field)
  pub exception : String

-- `event[key]` and `m[key]`: no key is set twice.
unfoldable pub find_field : String → List (String × Field) → Option Field
find_field key [] = none
find_field key ((k, field) ∷ rest) = if str_eq k key then some field else find_field key rest

unfoldable pub find_value : String → List (String × Value) → Option Value
find_value key [] = none
find_value key ((k, value) ∷ rest) = if str_eq k key then some value else find_value key rest

-- `if s, ok := v.(string); ok { scope.SetTag(tag, s) }`
value_tag : String → Option Value → List (String × String)
value_tag tag none = []
value_tag tag (some (int n)) = []
value_tag tag (some (str text)) = (tag, text) ∷ []

field_tag : String → Option Field → List (String × String)
field_tag tag none = []
field_tag tag (some (nested m)) = []
field_tag tag (some (plain text)) = (tag, text) ∷ []

registry_tags : Option Field → List (String × String)
unfolding value_tag find_value
registry_tags none = []
registry_tags (some (plain text)) = []
registry_tags (some (nested m)) =
    value_tag "registry_name" (find_value "name" m)
    ++ value_tag "registry_address" (find_value "address" m)

error_tags : Option Field → List (String × String)
unfolding value_tag find_value
error_tags none = []
error_tags (some (plain text)) = []
error_tags (some (nested m)) = value_tag "error_phase" (find_value "phase" m)

unfoldable pub wide_tags : List (String × Field) → List (String × String)
unfolding field_tag registry_tags error_tags
wide_tags event =
    field_tag "operation_id" (find_field "operation_id" event)
    ++ (field_tag "operation_type" (find_field "operation_type" event)
        ++ (field_tag "outcome" (find_field "outcome" event)
            ++ (registry_tags (find_field "registry" event)
                ++ error_tags (find_field "error" event))))

-- No error, no report.
unfoldable pub capture_wide_event : Option String → List (String × Field) → List Report
unfolding wide_tags
capture_wide_event none event = []
capture_wide_event (some message) event =
    record { tags = wide_tags event; context = event; exception = message } ∷ []

-- `CaptureError`: the tags, in the order in which the range clause takes them, and no context.
unfoldable pub capture_error : Option String → List (String × String) → List Report
capture_error none tags = []
capture_error (some message) tags = record { tags = tags; context = []; exception = message } ∷ []

-- `RecoverAndCapture`, deferred: `recovered` is the panic, if there is one. It reports the panic, and
-- panics again with the same value.
unfoldable pub recover_and_capture :
    Option String → List (String × String) → List Report × Option String
recover_and_capture none tags = ([], none)
recover_and_capture (some r) tags =
    (record { tags = tags; context = []; exception = r } ∷ [], some r)
