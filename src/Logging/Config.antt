-- ===== src/Logging/Config.antt =====
-- logging/config.go: the level and the format of the log, read off the environment.
pub mod Table
use text.Mathlib.Text.{◌==◌ as str_eq}
use zkcertificates_queue_pro.Base.{String, if◌then◌else◌}

pub data Level : Type 0 where
  level_debug level_info level_warn level_error : Level

pub record Config : Type 0 where
  pub level : Level
  pub format : String

pub data Handler : Type 0 where
  text_handler json_handler : Handler

-- The handler, which writes to the standard output, and its lowest level.
pub record Logger : Type 0 where
  pub handler : Handler
  pub level : Level

-- `switch strings.ToLower(levelStr)`
level_switch : String → Level → Level
level_switch name level =
    if str_eq name "debug"
    then level_debug
    else if str_eq name "info"
    then level_info
    else if str_eq name "warn"
    then level_warn
    else if str_eq name "warning"
    then level_warn
    else if str_eq name "error"
    then level_error
    else level

-- `switch strings.ToLower(format)`
format_switch : String → String → String
format_switch name format =
    if str_eq name "text" then "text" else if str_eq name "json" then "json" else format

-- The variables of the environment (the empty text if not set), and `strings.ToLower`.
module _ (getenv : String → String) (to_lower : String → String) where
  with_level : String → Config → Config
  unfolding level_switch
  with_level level_str cfg =
      if str_eq level_str ""
      then cfg
      else record cfg { level = level_switch (to_lower level_str) cfg.level }

  with_format : String → Config → Config
  unfolding format_switch
  with_format format cfg =
      if str_eq format ""
      then cfg
      else record cfg { format = format_switch (to_lower format) cfg.format }

  unfoldable pub config_from_env : Config
  unfolding with_level with_format
  config_from_env =
      with_format (getenv "LOG_FORMAT")
        (with_level (getenv "LOG_LEVEL") (record { level = level_info; format = "json" }))

unfoldable pub new_logger : Config → Logger
new_logger cfg = record {
  handler = if str_eq cfg.format "text" then text_handler else json_handler;
  level = cfg.level;
}
