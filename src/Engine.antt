-- ===== src/Engine.antt =====
-- The off-chain engine, crates/engine/src: the chain that contracts are tested against.
pub mod Host
pub mod Database
pub mod Context
pub mod DebugInfo
pub mod ChainExtension
pub mod State
pub mod TestApi
pub mod Ext
pub mod Properties
pub mod Steps
pub mod Demo
mod Tests
