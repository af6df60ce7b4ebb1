-- ===== src/Metadata/Layout.antt =====
-- The storage layout, crates/metadata/src/layout/mod.rs. A type is its number in the registry, a
-- name is its text.
use ink.Prelude.{ℕ, Bytes}

abbrev pub LayoutKey : Type 0
LayoutKey = ℕ

pub data CryptoHasher : Type 0 where
  blake2x256 sha2x256 keccak256 : CryptoHasher

pub record HashingStrategy : Type 0 where
  pub hasher : CryptoHasher
  pub prefix : Bytes
  pub postfix : Bytes

pub record LeafLayout : Type 0 where
  pub key : LayoutKey
  pub ty : ℕ

mutual
  pub data Layout : Type 0 where
    leaf : LeafLayout → Layout
    root : LayoutKey → ℕ → Layout → Layout
    hash : LayoutKey → HashingStrategy → Layout → Layout
    array : LayoutKey → ℕ → Layout → Layout
    structure : StructLayout → Layout
    -- its name, its dispatch key and its variants
    enumeration : Bytes → LayoutKey → Variants → Layout

  -- its name and its fields
  pub data StructLayout : Type 0 where
    struct_layout : Bytes → Fields → StructLayout

  -- `Vec<FieldLayout>`
  pub data Fields : Type 0 where
    no_fields : Fields
    field : Bytes → Layout → Fields → Fields

  -- `BTreeMap<Discriminant, StructLayout>`, in the order of the discriminants
  pub data Variants : Type 0 where
    no_variants : Variants
    variant : ℕ → StructLayout → Variants → Variants
