-- ===== src/Processor.antt =====
-- queueprocessor/processor.go, in parts.
pub mod Types
pub mod Act
pub mod Nonce
pub mod Operations
pub mod Queue
pub mod Setup
pub mod Interleave
pub mod Lifecycle
pub mod Loops
mod Examples
