-- ===== src/Ir.antt =====
-- The intermediate representation of a contract, crates/ink/ir/src/ir: selectors, attributes, and
-- the checks that a contract module passes before code is generated from it.
pub mod Selector
pub mod Attrs
pub mod Callable
pub mod ItemMod
pub mod Item
pub mod Method
pub mod ItemImpl
pub mod ChainExtension
pub mod TraitDef
mod Tests
