-- ===== src/Codegen.antt =====
-- What the generated code does, crates/ink/codegen/src/generator.
pub mod Dispatch
