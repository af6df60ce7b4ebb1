-- ===== src/Ir/Selector.antt =====
-- Selectors, crates/ink/ir/src/ir/selector.rs. The hash (ir/blake2.rs, the crate blake2) is a
-- parameter.
use ink.Prelude.{
  ℕ, ◌+◌, ◌*◌, Option, none, some, [], ◌∷◌, Outcome, ret, panic, Bytes, join, is_empty,
  if◌then◌else◌,
}
use ink.Prelude.Separated.{separator}

-- Four bytes.
pub record Selector : Type 0 where
  pub b0 : ℕ
  pub b1 : ℕ
  pub b2 : ℕ
  pub b3 : ℕ

unfoldable pub to_bytes : Selector → Bytes
to_bytes s = s.b0 ∷ s.b1 ∷ s.b2 ∷ s.b3 ∷ []

-- `u32::from_be_bytes`
unfoldable pub into_be_u32 : Selector → ℕ
into_be_u32 s = ((s.b0 * 256 + s.b1) * 256 + s.b2) * 256 + s.b3

pub record TraitPrefix : Type 0 where
  pub namespace : Option Bytes
  pub trait_ident : Bytes

-- `unwrap_or_default`
abbrev pub namespace_bytes : Option Bytes → Bytes
namespace_bytes none = []
namespace_bytes (some ns) = ns

-- The bytes that `compose` hashes.
unfoldable pub compose_input : Option TraitPrefix → Bytes → Bytes
compose_input none fn_ident = fn_ident
compose_input (some prefix) fn_ident =
    let namespace = namespace_bytes prefix.namespace in
    if is_empty namespace
    then join separator (prefix.trait_ident ∷ fn_ident ∷ [])
    else join separator (namespace ∷ prefix.trait_ident ∷ fn_ident ∷ [])

module _ (blake2b_256 : Bytes → Bytes) where
  -- The first four bytes of an output of 32; the indexing panics on a shorter one.
  abbrev first_four : Bytes → Outcome Selector
  first_four (a ∷ b ∷ c ∷ d ∷ _) = ret (record { b0 = a; b1 = b; b2 = c; b3 = d })
  first_four _ = panic

  unfoldable pub compute : Bytes → Outcome Selector
  compute input = first_four (blake2b_256 input)

  unfoldable pub compose : Option TraitPrefix → Bytes → Outcome Selector
  unfolding compute compose_input
  compose trait_prefix fn_ident = compute (compose_input trait_prefix fn_ident)
