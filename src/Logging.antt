-- ===== src/Logging.antt =====
-- logging/: the wide events by which each processed operation is logged, and the log's settings.
pub mod Types
pub mod Builder
pub mod Sentry
pub mod Config
mod Examples
