-- ===== src/Logging/Config/Table.antt =====
-- The settings of the log as a table of the names that the environment may give.
use text.Mathlib.Text.{◌==◌ as str_eq}
use zkcertificates_queue_pro.Base.{
  String, ◌≡◌, refl, inl, inr, Bool-cases, List, [], ◌∷◌, if◌then◌else◌,
}
use zkcertificates_queue_pro.Logging.Config.{
  Level, level_debug, level_info, level_warn, level_error, text_handler, json_handler, level_switch,
  format_switch, with_level, with_format, config_from_env, new_logger,
}

abbrev pub levels : List (String × Level)
levels =
    ("debug", level_debug)
    ∷ ("info", level_info)
    ∷ ("warn", level_warn)
    ∷ ("warning", level_warn)
    ∷ ("error", level_error)
    ∷ []

abbrev pub level_named : String → List (String × Level) → Level
level_named name [] = level_info
level_named name ((n, level) ∷ rest) =
    let other = level_named name rest in if str_eq name n then level else other

is_text : (name : String) → str_eq (format_switch name "json") "text" ≡ str_eq name "text"
unfolding format_switch
is_text name = elim (Bool-cases (str_eq name "text")) [
  | inl text ↦ rw text refl
  | inr different ↦ elim (Bool-cases (str_eq name "json")) [
    | inl json ↦ rw (different, json) refl
    | inr other ↦ rw (different, other) refl
  ]
]

module _ (getenv : String → String) (to_lower : String → String) where
  -- The value of a variable in lower case; empty if it is not set.
  abbrev pub lowered : String → String
  lowered name = if str_eq (getenv name) "" then "" else to_lower (getenv name)

  -- The logger that `main` sets is the one that the table tells: its level is the one named by
  -- LOG_LEVEL, and its handler writes text if LOG_FORMAT names text, in upper or lower case. Values
  -- that name neither, and those that are not set, count as `info` and `json`.
  pub new_logger-config_from_env :
      let logger = new_logger (config_from_env getenv to_lower) in
      (logger.level ≡ level_named (lowered "LOG_LEVEL") levels)
      × (logger.handler
          ≡ (if str_eq (lowered "LOG_FORMAT") "text" then text_handler else json_handler))
  unfolding new_logger config_from_env with_level with_format level_switch format_switch
  new_logger-config_from_env = elim (Bool-cases (str_eq (getenv "LOG_LEVEL") "")) [
    | inl unset ↦ elim (Bool-cases (str_eq (getenv "LOG_FORMAT") "")) [
      | inl unset' ↦ rw (unset, unset') (refl, refl)
      | inr given' ↦ rw (unset, given') (refl, rw (is_text (to_lower (getenv "LOG_FORMAT"))) refl)
    ]
    | inr given ↦ elim (Bool-cases (str_eq (getenv "LOG_FORMAT") "")) [
      | inl unset' ↦ rw (given, unset') (refl, refl)
      | inr given' ↦ rw (given, given') (refl, rw (is_text (to_lower (getenv "LOG_FORMAT"))) refl)
    ]
  ]
