-- ===== src/Env.antt =====
-- The environment of a contract under test, crates/env/src/engine/off_chain, and what stands on it.
pub mod Backend
pub mod Lazy
pub mod Mapping
pub mod Topics
pub mod CallData
pub mod Arithmetic
pub mod OnChain
mod Tests
