-- ===== src/Metadata.antt =====
-- The metadata of a contract, crates/metadata.
pub mod Layout
pub mod Validate
