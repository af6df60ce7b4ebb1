-- ===== src/Metadata/Validate.antt =====
-- The check for conflicting storage keys, crates/metadata/src/layout/validate.rs.
pub mod Occurrences
pub mod Reports
mod Tests
use ink.Prelude.{
  ℕ, Bool, true, false, Option, none, some, List, [], ◌∷◌, ◌++◌, Bytes, flatten, nat_eq,
}
use ink.Prelude.HashMap
use ink.Prelude.HashMap.{HashMap}
use ink.Prelude.Result.{Result, ok, err, ◌>>=◌, ◌>>◌}
use ink.Metadata.Layout.{
  LayoutKey, Layout, StructLayout, Fields, Variants, leaf, root, hash, array, structure,
  enumeration, struct_layout, no_fields, field, no_variants, variant,
}

-- `MetadataError`, and the panic of an `expect` or `unwrap`.
pub data Failure : Type 0 where
  collision : Bytes → Bytes → Failure
  panicked : Failure

pub record ValidateLayout : Type 0 where
  pub first_entry : HashMap LayoutKey Bytes
  pub name_stack : List Bytes

-- `Vec::push` and `Vec::pop`
unfoldable pub push_name : Bytes → ValidateLayout → ValidateLayout
push_name name v = record v { name_stack = v.name_stack ++ name ∷ [] }

abbrev pub without_last : List Bytes → Option (List Bytes)
without_last [] = none
without_last (x ∷ xs) = elim (without_last xs) [ none ↦ some [] | some ys ↦ some (x ∷ ys) ]

unfoldable pub pop_name : ValidateLayout → Result ValidateLayout Failure
pop_name v = elim (without_last v.name_stack) [
  | none ↦ err panicked
  | some names ↦ ok (record v { name_stack = names })
]

unfoldable pub check_key : LayoutKey → ValidateLayout → Result ValidateLayout Failure
check_key key v = elim (HashMap.get key v.first_entry) [
  | some prev_path ↦ err (collision prev_path (flatten v.name_stack))
  | none ↦ ok (record v { first_entry = HashMap.insert key (flatten v.name_stack) v.first_entry })
]

-- `format!("{}::", name)` and `format!(".{name}:")`
abbrev pub enum_prefix : Bytes → Bytes
enum_prefix name = name ++ b':' ∷ b':' ∷ []

abbrev pub field_prefix : Bytes → Bytes
field_prefix name = b'.' ∷ name ++ b':' ∷ []

unfoldable mutual
  pub recursive_validate : Layout → ValidateLayout → Result ValidateLayout Failure
  recursive_validate (leaf _) v = ok v
  recursive_validate (root key ty layout) v = do v' ← check_key key v; recursive_validate layout v'
  recursive_validate (hash offset strategy layout) v = recursive_validate layout v
  recursive_validate (array offset len layout) v = recursive_validate layout v
  recursive_validate (structure st) v = check_struct_layout st v
  recursive_validate (enumeration name dispatch_key variants) v = do
    v' ← check_variants variants (push_name (enum_prefix name) v)
    pop_name v'

  pub check_struct_layout : StructLayout → ValidateLayout → Result ValidateLayout Failure
  check_struct_layout (struct_layout name fields) v = do
    v' ← check_fields fields (push_name name v)
    pop_name v'

  -- the loop over the fields
  pub check_fields : Fields → ValidateLayout → Result ValidateLayout Failure
  check_fields no_fields v = ok v
  check_fields (field name layout fields) v = do
    v' ← recursive_validate layout (push_name (field_prefix name) v)
    v'' ← pop_name v'
    check_fields fields v''

  -- the loop over the variants
  pub check_variants : Variants → ValidateLayout → Result ValidateLayout Failure
  check_variants no_variants v = ok v
  check_variants (variant discriminant st variants) v = do
    v' ← check_struct_layout st v
    check_variants variants v'

unfoldable pub validate : Layout → Result (Unit {0}) Failure
validate layout = do
  _ ← recursive_validate layout (record { first_entry = []; name_stack = [] })
  ok tt
