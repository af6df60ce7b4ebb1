-- ===== src/Contracts.antt =====
-- Contracts of integration-tests, which show how the language is used. A `Mapping` is a finite map
-- here: Env.Mapping has what its operations do to the storage.
pub mod Totals
pub mod Multisig
pub mod Erc20
