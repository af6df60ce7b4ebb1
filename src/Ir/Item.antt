-- ===== src/Ir/Item.antt =====
-- How the items of a Rust module become those of a contract, crates/ink/ir/src/ir/item/mod.rs,
-- item/storage.rs and event/mod.rs beside it, and `TryFrom<syn::ItemMod>` of item_mod.rs. Of each
-- item, the model has what the checks read; its attributes are parsed.
pub mod Parts
pub mod Accepted
mod Tests
use ink.Prelude.{
  ℕ, Bool, true, false, not, Option, none, some, List, [], ◌∷◌, Bytes, length, if◌then◌else◌,
}
use ink.Prelude.Result.{Result, ok, err, ok_or, refuse_if, ◌>>=◌, ◌>>◌}
use ink.Ir.Attrs
use ink.Ir.Attrs.{AttributeArg, AttributeArgKind, InkAttribute}
use ink.Ir.Attrs.Sanitize.{Attribute, sanitize_attributes, partition_attributes}
use ink.Ir.Selector.{Selector}
use ink.Ir.Callable.{Callable, ItemImpl}
use ink.Ir.Method.{Visibility}
use ink.Ir.ItemImpl
use ink.Ir.ItemImpl.{
  ImplBlock, contains_ink_attributes, first_argument, is_ink_impl_block, item_impl_from,
}
use ink.Ir.ItemMod
use ink.Ir.ItemMod.{Item, InkItem, ensure_valid}

-- `syn::ItemStruct`
pub record ItemStruct : Type 0 where
  pub attrs : List Attribute
  pub vis : Visibility

-- `syn::Item`: a struct, an `impl` block, or another item, which has attributes too.
pub data RustItem : Type 0 where
  struct_item : ItemStruct → RustItem
  impl_item : ImplBlock → RustItem
  other_item : List Attribute → RustItem

-- `syn::ItemMod`: whether it has identifiers that ink! reserves, its items if they are in line, and
-- its attributes.
pub record RustMod : Type 0 where
  pub has_ink_identifiers : Bool
  pub content : Option (List RustItem)
  pub attrs : List Attribute

pub data Error : Type 0 where
  private_storage unsupported_struct reserved_identifier out_of_line : Error
  unexpected_attributes attributes_on_module : ℕ → Error
  attribute : Attrs.Error → Error
  block : ItemImpl.Error → Error
  module_error : ItemMod.Error → Error

abbrev pub lift {ℓ κ} : {A : Type ℓ} {E : Type κ} → (E → Error) → Result A E → Result A Error
lift wrap (ok a) = ok a
lift wrap (err e) = err (wrap e)

-- The closures of the two `sanitize_attributes`.
abbrev pub conflicts_storage : AttributeArg → Bool
conflicts_storage AttributeArg.storage = false
conflicts_storage _ = true

abbrev pub conflicts_event : AttributeArg → Bool
conflicts_event AttributeArg.event = false
conflicts_event AttributeArg.anonymous = false
conflicts_event _ = true

unfoldable pub ensure_pub_visibility : Visibility → Result (Unit {0}) Error
ensure_pub_visibility Visibility.public = ok tt
ensure_pub_visibility _ = err private_storage

-- `TryFrom<syn::ItemStruct> for Storage`
unfoldable pub storage_from : ItemStruct → Result InkItem Error
storage_from s = do
  parts ← lift attribute (sanitize_attributes s.attrs AttributeArgKind.storage conflicts_storage)
  ensure_pub_visibility s.vis
  ok InkItem.storage

-- `TryFrom<syn::ItemStruct> for Event`
unfoldable pub event_from : ItemStruct → Result InkItem Error
event_from s =
    lift attribute (sanitize_attributes s.attrs AttributeArgKind.event conflicts_event) >>= λ _.
    ok InkItem.event

-- A struct with an ink! attribute, by the first argument of the first one.
abbrev pub annotated_struct : Option AttributeArg → ItemStruct → Result InkItem Error
annotated_struct (some AttributeArg.storage) s = storage_from s
annotated_struct (some AttributeArg.event) s = event_from s
annotated_struct _ s = err unsupported_struct

abbrev pub as_ink : Result InkItem Error → Result Item Error
as_ink r = r >>= λ item. ok (Item.ink_item item)

-- `TryFrom<syn::Item> for Item`
unfoldable pub item_from : RustItem → Result Item Error
item_from (struct_item s) =
    if contains_ink_attributes s.attrs
    then as_ink (annotated_struct (first_argument s.attrs) s)
    else ok Item.rust_item
item_from (impl_item b) = lift block (is_ink_impl_block b) >>= λ is_ink.
    if is_ink
    then (lift block (item_impl_from b) >>= λ i. ok (Item.ink_item (InkItem.impl_block i)))
    else ok Item.rust_item
item_from (other_item attrs) =
    if contains_ink_attributes attrs
    then (lift attribute (partition_attributes attrs) >>= λ parts.
        err (unexpected_attributes (length parts.0)))
    else ok Item.rust_item

-- `map(try_from).collect()`: the first error is returned.
unfoldable pub collect_items : List RustItem → Result (List Item) Error
collect_items [] = ok []
collect_items (i ∷ is) = do item ← item_from i; rest ← collect_items is; ok (item ∷ rest)

abbrev pub ensure_no_attributes : List InkAttribute → Result (Unit {0}) Error
ensure_no_attributes [] = ok tt
ensure_no_attributes (a ∷ as') = err (attributes_on_module (length (a ∷ as')))

-- `TryFrom<syn::ItemMod> for ItemMod`
unfoldable pub module_from : (ItemImpl → Callable → Selector) → RustMod → Result (List Item) Error
module_from selector_of m = do
  refuse_if m.has_ink_identifiers reserved_identifier
  content ← ok_or out_of_line m.content
  parts ← lift attribute (partition_attributes m.attrs)
  ensure_no_attributes parts.0
  items ← collect_items content
  lift module_error (ensure_valid selector_of items)
  ok items
