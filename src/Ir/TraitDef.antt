-- ===== src/Ir/TraitDef.antt =====
-- Trait definitions, crates/ink/ir/src/ir/trait_def/item: the checks of mod.rs and trait_item.rs. Of a
-- Rust trait, the model has what the checks read; attributes are parsed, and the type of an error is
-- its kind.
pub mod Extract
pub mod Accepted
pub mod Total
mod Tests
use ink.Prelude.{
  ℕ, Bool, true, false, not, Option, none, some, List, [], ◌∷◌, Bytes, bytes_eq, nat_beq, is_empty,
  Outcome, ret, panic, expect, if◌then◌else◌,
}
use ink.Prelude.HashMap
use ink.Prelude.HashMap.{HashMap}
use ink.Prelude.Result.{Result, ok, err, refuse_if, ◌>>=◌, ◌>>◌}
use ink.Ir.Selector.{Selector, TraitPrefix, to_bytes, compose}
use ink.Ir.Attrs
use ink.Ir.Attrs.{AttributeArg, AttributeArgKind, InkAttribute, SelectorOrWildcard}
use ink.Ir.Attrs.Sanitize.{
  Attribute, ink_attr, other_attr, first_arg, sanitize_attributes, sanitize_optional_attributes,
  selector,
}

-- `syn::Receiver`: whether it is a reference, and whether it is `mut`.
pub record TraitReceiver : Type 0 where
  pub is_reference : Bool
  pub is_mut : Bool

-- `syn::TraitItemFn`
pub record TraitItemFn : Type 0 where
  pub ident : Bytes
  pub has_default : Bool
  pub is_const : Bool
  pub is_async : Bool
  pub is_unsafe : Bool
  pub has_abi : Bool
  pub is_variadic : Bool
  pub generic_params : ℕ
  pub receiver : Option TraitReceiver
  pub attrs : List Attribute

pub data TraitItem : Type 0 where
  const_item macro_item type_item verbatim_item unknown_item : TraitItem
  fn_item : TraitItemFn → TraitItem

-- `syn::ItemTrait`, with what `idents_lint` finds in its tokens.
pub record ItemTrait : Type 0 where
  pub ident : Bytes
  pub has_ink_identifier : Bool
  pub is_unsafe : Bool
  pub is_auto : Bool
  pub generic_params : ℕ
  pub is_public : Bool
  pub supertraits : ℕ
  pub attrs : List Attribute
  pub items : List TraitItem

pub data Error : Type 0 where
  ink_identifier unsafe_trait auto_trait generic_trait private_trait super_traits : Error
  associated_const macro_use associated_type verbatim_tokens unknown : Error
  default_method const_method async_method unsafe_method abi_method variadic_method : Error
  generic_method unsupported_attribute missing_flag trait_constructor : Error
  missing_receiver receiver_by_value duplicate_selector empty_definition : Error
  attribute : Attrs.Error → Error

unfoldable pub analyse_properties : ItemTrait → Result (Unit {0}) Error
analyse_properties t = do
  refuse_if t.is_unsafe unsafe_trait
  refuse_if t.is_auto auto_trait
  refuse_if (not (nat_beq t.generic_params 0)) generic_trait
  refuse_if (not t.is_public) private_trait
  refuse_if (not (nat_beq t.supertraits 0)) super_traits

-- `first_ink_attribute` of attrs.rs
abbrev pub first_ink_attribute : List Attribute → Option InkAttribute
first_ink_attribute [] = none
first_ink_attribute (ink_attr a ∷ _) = some a
first_ink_attribute (other_attr _ ∷ as') = first_ink_attribute as'

abbrev lift_error : {A : Type 0} → Result A Attrs.Error → Result A Error
lift_error (ok a) = ok a
lift_error (err e) = err (attribute e)

-- The closure of `extract_attributes`.
abbrev pub conflicts_trait_message : AttributeArg → Bool
conflicts_trait_message (AttributeArg.selector SelectorOrWildcard.wildcard) = true
conflicts_trait_message (AttributeArg.selector (SelectorOrWildcard.user_provided _)) = false
conflicts_trait_message AttributeArg.message = false
conflicts_trait_message AttributeArg.payable = false
conflicts_trait_message AttributeArg.default = false
conflicts_trait_message _ = true

-- `InkTraitMessage::extract_attributes`
unfoldable pub extract_attributes : List Attribute → Result (InkAttribute × List Bytes) Error
extract_attributes attrs =
    lift_error (sanitize_attributes attrs AttributeArgKind.message conflicts_trait_message)

abbrev pub check_receiver : Option TraitReceiver → Result (Unit {0}) Error
check_receiver none = err missing_receiver
check_receiver (some r) = refuse_if (not r.is_reference) receiver_by_value

unfoldable pub analyse_trait_message : TraitItemFn → Result (Unit {0}) Error
unfolding extract_attributes
analyse_trait_message message = do
  extract_attributes message.attrs >>= λ _. ok tt
  check_receiver message.receiver

unfoldable pub analyse_trait_constructor : TraitItemFn → Result (Unit {0}) Error
analyse_trait_constructor constructor = err trait_constructor

-- The last `match` of `analyse_trait_fn`, on the first argument of the first ink! attribute.
abbrev pub analyse_flagged : TraitItemFn → Option InkAttribute → Result (Unit {0}) Error
analyse_flagged method none = err missing_flag
analyse_flagged method (some a) = elim (first_arg a.args) [
  | none ↦ err unsupported_attribute
  | some arg ↦ elim arg [
    | AttributeArg.message ↦ analyse_trait_message method
    | AttributeArg.constructor ↦ analyse_trait_constructor method
    | _ ↦ err unsupported_attribute
  ]
]

unfoldable pub analyse_trait_fn : TraitItemFn → Result (Unit {0}) Error
unfolding analyse_trait_message analyse_trait_constructor
analyse_trait_fn method = do
  refuse_if method.has_default default_method
  refuse_if method.is_const const_method
  refuse_if method.is_async async_method
  refuse_if method.is_unsafe unsafe_method
  refuse_if method.has_abi abi_method
  refuse_if method.is_variadic variadic_method
  refuse_if (not (nat_beq method.generic_params 0)) generic_method
  analyse_flagged method (first_ink_attribute method.attrs)

unfoldable pub analyse_items : List TraitItem → Result (Unit {0}) Error
analyse_items [] = ok tt
analyse_items (const_item ∷ items) = err associated_const
analyse_items (macro_item ∷ items) = err macro_use
analyse_items (type_item ∷ items) = err associated_type
analyse_items (verbatim_item ∷ items) = err verbatim_tokens
analyse_items (unknown_item ∷ items) = err unknown
analyse_items (fn_item f ∷ items) = analyse_trait_fn f >> analyse_items items

-- The checks of `InkItemTrait::new` before the selectors.
unfoldable pub analyse : ItemTrait → Result (Unit {0}) Error
unfolding analyse_properties analyse_items
analyse t = do
  refuse_if t.has_ink_identifier ink_identifier
  analyse_properties t
  analyse_items t.items
