-- ===== src/Ir/ItemImpl.antt =====
-- How an `impl` block becomes an ink! one, crates/ink/ir/src/ir/item_impl/mod.rs and impl_item.rs
-- beside it. Of the block, the model has what the checks read; its attributes are parsed.
pub mod Items
pub mod Accepted
pub mod Plain
mod Tests
use ink.Prelude.{
  ℕ, Bool, true, false, not, ◌||◌, ◌&&◌, Option, none, some, List, [], ◌∷◌, Bytes, nat_beq, length,
  if◌then◌else◌,
}
use ink.Prelude.Result.{Result, ok, err, refuse_if, ◌>>=◌, ◌>>◌}
use ink.Ir.Attrs
use ink.Ir.Attrs.{AttributeArg, AttributeArgKind, InkAttribute, from_expanded}
use ink.Ir.Attrs.Sanitize.{
  Attribute, ink_attr, other_attr, first_arg, ensure_first, ensure_no_conflicts, namespace,
  partition_attributes,
}
use ink.Ir.Callable.{Callable, TraitPath, ImplItem, ItemImpl}
use ink.Ir.Method.{Visibility, ImplItemFn, message_from, constructor_from}
use ink.Ir.Method

-- `syn::ImplItem`: a function, or another item, which has attributes too.
pub data RustItem : Type 0 where
  fn_item : ImplItemFn → RustItem
  other_item : List Attribute → RustItem

-- `syn::ItemImpl`
pub record ImplBlock : Type 0 where
  pub attrs : List Attribute
  pub has_defaultness : Bool
  pub is_unsafe : Bool
  pub generic_params : ℕ
  pub trait_path : Option TraitPath
  pub items : List RustItem

pub data Error : Type 0 where
  not_annotated default_block unsafe_block generic_block bad_visibility : Error
  namespace_on_trait no_callable : Error
  unexpected_attributes : ℕ → Error
  attribute : Attrs.Error → Error
  method : Method.Error → Error

abbrev pub lift_attribute {ℓ} : {A : Type ℓ} → Result A Attrs.Error → Result A Error
lift_attribute (ok a) = ok a
lift_attribute (err e) = err (attribute e)

abbrev pub lift_method {ℓ κ} :
    {A : Type ℓ} {B : Type κ} → (A → B) → Result A Method.Error → Result B Error
lift_method f (ok a) = ok (f a)
lift_method f (err e) = err (method e)

abbrev pub contains_ink_attributes : List Attribute → Bool
contains_ink_attributes [] = false
contains_ink_attributes (ink_attr _ ∷ _) = true
contains_ink_attributes (other_attr _ ∷ as') = contains_ink_attributes as'

-- The first argument of the first ink! attribute: there is one exactly if the attributes contain one.
abbrev pub first_argument : List Attribute → Option AttributeArg
first_argument [] = none
first_argument (ink_attr a ∷ _) = first_arg a.args
first_argument (other_attr _ ∷ as') = first_argument as'

abbrev pub attrs_of : RustItem → List Attribute
attrs_of (fn_item f) = f.attrs
attrs_of (other_item attrs) = attrs

-- A function with an ink! attribute, by the first argument of the first one.
abbrev pub annotated_fn : Option AttributeArg → ImplItemFn → Result ImplItem Error
annotated_fn (some AttributeArg.message) f = lift_method ImplItem.message (message_from f)
annotated_fn (some AttributeArg.constructor) f =
    lift_method ImplItem.constructor (constructor_from f)
annotated_fn _ f = err no_callable

-- `TryFrom<syn::ImplItem> for ImplItem`
unfoldable pub impl_item_from : RustItem → Result ImplItem Error
impl_item_from (fn_item f) =
    if contains_ink_attributes f.attrs
    then annotated_fn (first_argument f.attrs) f
    else ok ImplItem.other
impl_item_from (other_item attrs) =
    if contains_ink_attributes attrs
    then (lift_attribute (partition_attributes attrs) >>= λ parts.
        err (unexpected_attributes (length parts.0)))
    else ok ImplItem.other

abbrev pub any_attributes : List RustItem → Bool
any_attributes [] = false
any_attributes (i ∷ is) = contains_ink_attributes (attrs_of i) || any_attributes is

abbrev pub is_callable : Option AttributeArg → Bool
is_callable (some AttributeArg.message) = true
is_callable (some AttributeArg.constructor) = true
is_callable _ = false

-- The loop of `is_ink_impl_block` over the items.
abbrev pub any_callable : List RustItem → Bool
any_callable [] = false
any_callable (fn_item f ∷ is) = is_callable (first_argument f.attrs) || any_callable is
any_callable (other_item _ ∷ is) = any_callable is

abbrev pub is_ok {ℓ κ} : {A : Type ℓ} {E : Type κ} → Result A E → Bool
is_ok (ok _) = true
is_ok (err _) = false

-- Whether the block itself has `#[ink(impl)]`.
abbrev pub marked : List InkAttribute → Result Bool Error
marked [] = ok false
marked (a ∷ as') = lift_attribute (from_expanded (a ∷ as')) >>= λ normalized.
    ok (is_ok (ensure_first AttributeArgKind.implementation normalized))

unfoldable pub is_ink_impl_block : ImplBlock → Result Bool Error
is_ink_impl_block b =
    if not (contains_ink_attributes b.attrs) && not (any_attributes b.items) then ok false else (do
      parts ← lift_attribute (partition_attributes b.attrs)
      by_itself ← marked parts.0
      ok (by_itself || any_callable b.items))

-- `map(try_from).collect()`: the first error is returned.
unfoldable pub collect_items : List RustItem → Result (List ImplItem) Error
collect_items [] = ok []
collect_items (i ∷ is) = do item ← impl_item_from i; rest ← collect_items is; ok (item ∷ rest)

abbrev is_pub : Visibility → Bool
is_pub Visibility.public = true
is_pub _ = false

-- `requires_pub != vis.is_pub()`
abbrev pub ensure_valid_visibility : Visibility → Bool → Result (Unit {0}) Error
ensure_valid_visibility vis true = refuse_if (is_pub vis) bad_visibility
ensure_valid_visibility vis false = refuse_if (not (is_pub vis)) bad_visibility

-- A message and a constructor have the visibility of their function.
abbrev pub check_visibility : Bool → RustItem → ImplItem → Result (Unit {0}) Error
check_visibility is_trait_impl (fn_item f) ImplItem.other = ok tt
check_visibility is_trait_impl (fn_item f) _ = ensure_valid_visibility f.vis is_trait_impl
check_visibility is_trait_impl (other_item _) _ = ok tt

unfoldable pub check_visibilities : Bool → List RustItem → List ImplItem → Result (Unit {0}) Error
check_visibilities is_trait_impl (i ∷ is) (item ∷ items) =
    check_visibility is_trait_impl i item >> check_visibilities is_trait_impl is items
check_visibilities is_trait_impl _ _ = ok tt

abbrev pub conflicts_impl : AttributeArg → Bool
conflicts_impl AttributeArg.implementation = false
conflicts_impl (AttributeArg.namespace _) = false
conflicts_impl _ = true

abbrev pub namespace_of : List InkAttribute → Result (Option Bytes) Error
namespace_of [] = ok none
namespace_of (a ∷ as') = do
  normalized ← lift_attribute (from_expanded (a ∷ as'))
  lift_attribute (ensure_no_conflicts conflicts_impl normalized)
  ok (namespace normalized)

abbrev pub is_some {ℓ} : {A : Type ℓ} → Option A → Bool
is_some none = false
is_some (some _) = true

-- `TryFrom<syn::ItemImpl> for ItemImpl`
unfoldable pub item_impl_from : ImplBlock → Result ItemImpl Error
item_impl_from b = do
  annotated ← is_ink_impl_block b
  refuse_if (not annotated) not_annotated
  refuse_if b.has_defaultness default_block
  refuse_if b.is_unsafe unsafe_block
  refuse_if (not (nat_beq b.generic_params 0)) generic_block
  items ← collect_items b.items
  check_visibilities (is_some b.trait_path) b.items items
  parts ← lift_attribute (partition_attributes b.attrs)
  ns ← namespace_of parts.0
  refuse_if (is_some ns && is_some b.trait_path) namespace_on_trait
  ok (record { namespace = ns; trait_path = b.trait_path; items = items })
