-- ===== src/Core.antt =====
-- The crate crates/omni-core.
pub mod Errors
pub mod Audit
pub mod Policy
pub mod Vault
pub mod Work
pub mod Continuity
pub mod Journal
