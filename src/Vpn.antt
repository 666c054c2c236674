-- ===== src/Vpn.antt =====
-- The crate crates/omni-vpn.
pub mod Rotation
pub mod Wire
pub mod Keys
pub mod Knock
pub mod Server
