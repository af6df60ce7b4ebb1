-- ===== src/Ir/ChainExtension.antt =====
-- The definition of a chain extension, crates/ink/ir/src/ir/chain_extension.rs. Of a Rust trait, the
-- model has what the checks read; attributes are parsed, and the type of an error is its kind.
pub mod Accepted
mod Tests
use ink.Prelude.{
  ℕ, Bool, true, false, not, Option, none, some, List, [], ◌∷◌, ◌++◌, Bytes, bytes_eq, nat_eq,
  nat_beq, ◌==◌, if◌then◌else◌,
}
use ink.Prelude.HashMap
use ink.Prelude.HashMap.{HashMap}
use ink.Prelude.Result.{Result, ok, err, refuse_if, ◌>>=◌, ◌>>◌}
use ink.Ir.Attrs.{AttributeArg, AttributeArgKind, InkAttribute}
use ink.Ir.Attrs
use ink.Ir.Attrs.Sanitize.{
  Attribute, ink_attr, other_attr, first_arg, sanitize_attributes, is_handle_status,
}

-- `syn::TraitItemType`
pub record TraitItemType : Type 0 where
  pub ident : Bytes
  pub generic_params : ℕ
  pub bounds : ℕ
  pub default_type : Option Bytes

-- `syn::TraitItemFn`
pub record TraitItemFn : Type 0 where
  pub ident : Bytes
  pub has_default : Bool
  pub is_const : Bool
  pub is_async : Bool
  pub is_unsafe : Bool
  pub has_abi : Bool
  pub is_variadic : Bool
  pub generic_params : ℕ
  pub has_receiver : Bool
  pub attrs : List Attribute

pub data TraitItem : Type 0 where
  const_item macro_item verbatim_item unknown_item : TraitItem
  type_item : TraitItemType → TraitItem
  fn_item : TraitItemFn → TraitItem

-- `syn::ItemTrait`, with what `idents_lint` finds in its tokens.
pub record ItemTrait : Type 0 where
  pub has_ink_identifier : Bool
  pub is_unsafe : Bool
  pub is_auto : Bool
  pub generic_params : ℕ
  pub is_public : Bool
  pub supertraits : ℕ
  pub items : List TraitItem

pub data Error : Type 0 where
  ink_identifier unsafe_trait auto_trait generic_trait private_trait super_traits : Error
  wrong_type_name generic_error_code bounded_error_code no_default duplicate_error_code : Error
  associated_const macro_use verbatim_tokens unknown missing_error_code duplicate_ids : Error
  default_method const_method async_method unsafe_method abi_method variadic_method : Error
  generic_method unsupported_attribute missing_extension self_receiver : Error
  attribute : Attrs.Error → Error

-- `ChainExtensionMethod`; an `ExtensionId` is its number.
pub record ChainExtensionMethod : Type 0 where
  pub item : TraitItemFn
  pub id : ℕ
  pub handle_status : Bool

unfoldable pub analyse_properties : ItemTrait → Result (Unit {0}) Error
analyse_properties t = do
  refuse_if t.is_unsafe unsafe_trait
  refuse_if t.is_auto auto_trait
  refuse_if (not (nat_beq t.generic_params 0)) generic_trait
  refuse_if (not t.is_public) private_trait
  refuse_if (not (nat_beq t.supertraits 0)) super_traits

-- "ErrorCode"
abbrev pub error_code_name : Bytes
error_code_name = b'E' ∷ b'r' ∷ b'r' ∷ b'o' ∷ b'r' ∷ b'C' ∷ b'o' ∷ b'd' ∷ b'e' ∷ []

abbrev is_none : {A : Type 0} → Option A → Bool
is_none none = true
is_none (some _) = false

-- The new value of `previous`.
unfoldable pub analyse_error_code :
    TraitItemType → Option TraitItemType → Result (Option TraitItemType) Error
analyse_error_code item_type previous = do
  refuse_if (not (item_type.ident == error_code_name)) wrong_type_name
  refuse_if (not (nat_beq item_type.generic_params 0)) generic_error_code
  refuse_if (not (nat_beq item_type.bounds 0)) bounded_error_code
  refuse_if (is_none item_type.default_type) no_default
  refuse_if (not (is_none previous)) duplicate_error_code
  ok (some item_type)

abbrev lift_error : {A : Type 0} → Result A Attrs.Error → Result A Error
lift_error (ok a) = ok a
lift_error (err e) = err (attribute e)

-- `first_ink_attribute` of attrs.rs
abbrev first_ink_attribute : List Attribute → Option InkAttribute
first_ink_attribute [] = none
first_ink_attribute (ink_attr a ∷ _) = some a
first_ink_attribute (other_attr _ ∷ as') = first_ink_attribute as'

abbrev is_conflicting : AttributeArg → Bool
is_conflicting (AttributeArg.extension _) = false
is_conflicting (AttributeArg.handle_status _) = false
is_conflicting _ = true

unfoldable pub analyse_chain_extension_method : TraitItemFn → ℕ → Result ChainExtensionMethod Error
analyse_chain_extension_method item extension = do
  parts ← lift_error (sanitize_attributes item.attrs AttributeArgKind.extension is_conflicting)
  refuse_if item.has_receiver self_receiver
  ok (record { item = item; id = extension; handle_status = is_handle_status parts.0 })

-- The last `match` of `analyse_methods`, on the first argument of the first ink! attribute.
abbrev by_attribute : TraitItemFn → Option InkAttribute → Result ChainExtensionMethod Error
by_attribute method none = err missing_extension
by_attribute method (some a) = elim (first_arg a.args) [
  | none ↦ err unsupported_attribute
  | some arg ↦ elim arg [
    | AttributeArg.extension id ↦ analyse_chain_extension_method method id
    | _ ↦ err unsupported_attribute
  ]
]

unfoldable pub analyse_methods : TraitItemFn → Result ChainExtensionMethod Error
unfolding analyse_chain_extension_method
analyse_methods method = do
  refuse_if method.has_default default_method
  refuse_if method.is_const const_method
  refuse_if method.is_async async_method
  refuse_if method.is_unsafe unsafe_method
  refuse_if method.has_abi abi_method
  refuse_if method.is_variadic variadic_method
  refuse_if (not (nat_beq method.generic_params 0)) generic_method
  by_attribute method (first_ink_attribute method.attrs)

-- The variables of the loop of `analyse_items`; a method is seen under its name.
pub record Analysis : Type 0 where
  pub methods : List ChainExtensionMethod
  pub seen_ids : HashMap ℕ Bytes
  pub error_code : Option TraitItemType

unfoldable pub add_method : ChainExtensionMethod → Analysis → Result Analysis Error
add_method method a = elim (HashMap.get method.id a.seen_ids) [
  | some _ ↦ err duplicate_ids
  | none ↦ ok (record a {
    methods = a.methods ++ method ∷ [];
    seen_ids = HashMap.insert method.id method.item.ident a.seen_ids;
  })
]

unfoldable pub analyse_loop : List TraitItem → Analysis → Result Analysis Error
analyse_loop [] a = ok a
analyse_loop (const_item ∷ items) a = err associated_const
analyse_loop (macro_item ∷ items) a = err macro_use
analyse_loop (verbatim_item ∷ items) a = err verbatim_tokens
analyse_loop (unknown_item ∷ items) a = err unknown
analyse_loop (type_item t ∷ items) a = do
  code ← analyse_error_code t a.error_code
  analyse_loop items (record a { error_code = code })
analyse_loop (fn_item f ∷ items) a = do
  method ← analyse_methods f
  a' ← add_method method a
  analyse_loop items a'

unfoldable pub analyse_items : ItemTrait → Result (TraitItemType × List ChainExtensionMethod) Error
analyse_items t = do
  a ← analyse_loop t.items (record { methods = []; seen_ids = []; error_code = none })
  elim a.error_code [ some code ↦ ok (code, a.methods) | none ↦ err missing_error_code ]

-- `ChainExtension`
pub record ChainExtension : Type 0 where
  pub item : ItemTrait
  pub error_code : TraitItemType
  pub methods : List ChainExtensionMethod

-- `TryFrom<syn::ItemTrait>`
unfoldable pub try_from : ItemTrait → Result ChainExtension Error
try_from t = do
  refuse_if t.has_ink_identifier ink_identifier
  analyse_properties t
  r ← analyse_items t
  ok (record { item = t; error_code = r.0; methods = r.1 })
