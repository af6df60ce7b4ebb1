-- ===== src/Ir/Item/Tests.antt =====
-- A module with a storage struct, an event, a message and a constructor, and that it is accepted.
use ink.Prelude.{◌≡◌, refl, true, false, none, some, List, [], ◌∷◌, Bytes}
use ink.Prelude.HashMap
use ink.Prelude.Result.{ok}
use ink.Ir.Selector.{Selector, to_bytes}
use ink.Ir.Attrs.{
  AttributeArg, ensure_no_duplicate_args, kind, kind_beq, frag_beq, contains_frag, check_args,
  from_expanded,
}
use ink.Ir.Attrs.Sanitize.{
  Attribute, sanitize_attributes, partition_attributes, ensure_first, ensure_no_conflicts,
  ensure_no_duplicate_attrs, selector, is_payable, is_default,
}
use ink.Ir.Callable.{
  Callable, ImplItem, ItemImpl, iter_messages, iter_constructors, has_wildcard_selector,
  has_wildcard_complement_selector,
}
use ink.Ir.Method.{
  Visibility, FnArg, ReturnType, ImplItemFn, ensure_callable_invariants,
  ensure_receiver_is_self_ref, ensure_not_return_self, ensure_return, ensure_no_self_receiver,
  message_from, constructor_from,
}
use ink.Ir.ItemImpl
use ink.Ir.ItemImpl.{
  ImplBlock, impl_item_from, is_ink_impl_block, check_visibilities, item_impl_from,
}
use ink.Ir.ItemMod.{
  Item, InkItem, ensure_valid, ensure_storage_struct_quantity, ensure_contains_message,
  ensure_contains_constructor, enter_all, enter_blocks, ensure_no_overlapping_selectors,
  scan_messages, check_usage, scan_constructors, scan_blocks, ensure_valid_wildcard_selector_usage,
}
use ink.Ir.Item.{
  RustItem, RustMod, ensure_pub_visibility, storage_from, event_from, item_from, collect_items,
  module_from,
}
use ink.Ir.Item.Accepted.{Accepted, module_from-Accepted}

-- A selector that is read off the first letter of the name.
abbrev letter_of : Bytes → Selector
letter_of [] = record { b0 = 0; b1 = 0; b2 = 0; b3 = 0 }
letter_of (b ∷ _) = record { b0 = b; b1 = 0; b2 = 0; b3 = 0 }

abbrev letter_selector : ItemImpl → Callable → Selector
letter_selector i c = letter_of c.ident

abbrev only : AttributeArg → List Attribute
only arg = Attribute.ink_attr (record { args = record { ast = b'a' ∷ []; arg = arg } ∷ [] }) ∷ []

-- `#[ink(message)] pub fn f(&self)`
abbrev message_fn : ImplItemFn
message_fn = record {
  ident = b'f' ∷ [];
  vis = Visibility.public;
  generic_params = 0;
  is_const = false;
  is_async = false;
  is_unsafe = false;
  has_abi = false;
  is_variadic = false;
  inputs = FnArg.receiver true ∷ [];
  output = ReturnType.default_return;
  attrs = only AttributeArg.message;
}

-- `#[ink(constructor)] pub fn n() -> Self`
abbrev constructor_fn : ImplItemFn
constructor_fn = record message_fn {
  ident = b'n' ∷ [];
  inputs = [];
  output = ReturnType.returns true;
  attrs = only AttributeArg.constructor;
}

abbrev block : ImplBlock
block = record {
  attrs = [];
  has_defaultness = false;
  is_unsafe = false;
  generic_params = 0;
  trait_path = none;
  items = ItemImpl.fn_item constructor_fn ∷ ItemImpl.fn_item message_fn ∷ [];
}

abbrev contract : RustMod
contract = record {
  has_ink_identifiers = false;
  content = some (
      RustItem.struct_item (record { attrs = only AttributeArg.storage; vis = Visibility.public })
      ∷ RustItem.struct_item
          (record { attrs = only AttributeArg.event; vis = Visibility.inherited })
      ∷ RustItem.impl_item block
      ∷ RustItem.other_item []
      ∷ []);
  attrs = Attribute.other_attr [] ∷ [];
}

abbrev call : Bytes → Callable
call ident = record { ident = ident; selector = none; is_payable = false; is_default = false }

abbrev items : List Item
items =
    Item.ink_item InkItem.storage
    ∷ Item.ink_item InkItem.event
    ∷ Item.ink_item (
        InkItem.impl_block (record {
          namespace = none;
          trait_path = none;
          items =
              ImplItem.constructor (call (b'n' ∷ [])) ∷ ImplItem.message (call (b'f' ∷ [])) ∷ [];
        }))
    ∷ Item.rust_item
    ∷ []

accepted : module_from letter_selector contract ≡ ok items
unfolding module_from collect_items item_from storage_from event_from ensure_pub_visibility
    item_impl_from is_ink_impl_block ItemImpl.collect_items impl_item_from check_visibilities
    message_from constructor_from ensure_callable_invariants ensure_receiver_is_self_ref
    ensure_not_return_self ensure_return ensure_no_self_receiver sanitize_attributes
    partition_attributes ensure_no_duplicate_attrs from_expanded ensure_no_duplicate_args check_args
    contains_frag frag_beq kind_beq kind ensure_first ensure_no_conflicts selector is_payable
    is_default ensure_valid ensure_storage_struct_quantity ensure_contains_message
    ensure_contains_constructor ensure_no_overlapping_selectors enter_blocks enter_all
    ensure_valid_wildcard_selector_usage scan_blocks scan_messages check_usage scan_constructors
    iter_messages iter_constructors has_wildcard_selector has_wildcard_complement_selector
    HashMap.get HashMap.insert to_bytes
accepted = refl

module_from-Accepted_example : Accepted letter_selector contract items
module_from-Accepted_example = module_from-Accepted letter_selector contract items accepted
