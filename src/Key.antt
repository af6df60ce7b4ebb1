-- ===== src/Key.antt =====
-- Storage keys, crates/primitives/src/key.rs. The hash (the crate xxhash_rust) is a parameter.
pub mod Compose
mod Tests
use Prim.Native.Nat.{bit_xor}
use ink.Prelude.{
  ℕ, ◌+◌, ◌*◌, ◌/◌, ◌%◌, ◌^◌, Bool, true, false, nat_beq, Option, none, some, List, [], ◌∷◌, Bytes,
  join, is_empty, if◌then◌else◌, not,
}
use ink.Prelude.Result.{Result, ok, err}
use ink.Prelude.Separated.{separator}

-- A `u32`.
abbrev pub Key : Type 0
Key = ℕ

pub data Error : Type 0 where
  struct_name_is_empty field_name_is_empty : Error

-- `u32::to_be_bytes`
abbrev pub to_be_bytes : ℕ → Bytes
to_be_bytes k = k / 2 ^ 24 % 256 ∷ k / 2 ^ 16 % 256 ∷ k / 2 ^ 8 % 256 ∷ k % 256 ∷ []

-- The parts that `compute_key` joins.
abbrev pub key_parts : Bytes → Bytes → Bytes → List Bytes
key_parts struct_name variant_name field_name =
    if not (is_empty variant_name)
    then struct_name ∷ variant_name ∷ field_name ∷ []
    else struct_name ∷ field_name ∷ []

-- `xxh32`, with the seed 0
module _ (xxh32 : Bytes → Key) where
  unfoldable pub concat : Key → Key → Key
  concat left right =
      if nat_beq left 0
      then (if nat_beq right 0 then 0 else right)
      else if nat_beq right 0
      then left
      else xxh32 (to_be_bytes (bit_xor left right))

  unfoldable pub from_bytes : Bytes → Key
  from_bytes bytes = if is_empty bytes then 0 else xxh32 bytes

  abbrev pub from_str : Bytes → Key
  from_str str = from_bytes str

  unfoldable pub compute_key : Bytes → Bytes → Bytes → Result Key Error
  compute_key struct_name variant_name field_name =
      if is_empty struct_name
      then err struct_name_is_empty
      else if is_empty field_name
      then err field_name_is_empty
      else ok (from_bytes (join separator (key_parts struct_name variant_name field_name)))
