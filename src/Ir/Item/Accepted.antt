-- ===== src/Ir/Item/Accepted.antt =====
-- The modules that are accepted as contracts, crates/ink/ir/src/ir/item_mod.rs.
use ink.Prelude.{◌≡◌, ◌≢◌, refl, subst, false, some, List, [], ◌∷◌, arith}
use ink.Prelude.Distinct.{Distinct}
use ink.Prelude.Result.{ok, ok_or, refuse_if, >>=-eq-ok}
use ink.Ir.Attrs.{InkAttribute}
use ink.Ir.Attrs.Sanitize.{ink_attrs, partition_attributes}
use ink.Ir.Selector.{Selector}
use ink.Ir.Callable.{Callable, ItemImpl}
use ink.Ir.ItemMod.{Item, count_storage, impl_blocks, ensure_valid}
use ink.Ir.ItemMod.Quantity.{
  ensure_valid_steps, ensure_valid-Complete, all_messages, all_constructors,
}
use ink.Ir.ItemMod.Overlap.{
  message_selectors, constructor_selectors, ensure_no_overlapping_selectors_iff,
}
use ink.Ir.Item.{
  RustItem, RustMod, lift, attribute, module_error, reserved_identifier, out_of_line, collect_items,
  ensure_no_attributes, module_from,
}
use ink.Ir.Item.Parts.{AllBecome, collect_items-AllBecome, lift_ok}

module _ (selector_of : ItemImpl → Callable → Selector) where
  -- What holds of a module that is accepted.
  pub record Accepted (m : RustMod) (items : List Item) : Type 0 where
    pub no_reserved : m.has_ink_identifiers ≡ false
    pub no_attributes : ink_attrs m.attrs ≡ []
    pub becomes : (content : List RustItem) × (m.content ≡ some content) × AllBecome content items
    pub one_storage : count_storage items ≡ 1
    pub message : all_messages selector_of (impl_blocks items) ≢ []
    pub constructor : all_constructors selector_of (impl_blocks items) ≢ []
    pub messages_differ : Distinct (message_selectors selector_of (impl_blocks items))
    pub constructors_differ : Distinct (constructor_selectors selector_of (impl_blocks items))

  no_attributes_lem :
      (attrs : List InkAttribute) {u : Unit {0}} → ensure_no_attributes attrs ≡ ok u → attrs ≡ []
  no_attributes_lem [] h = refl
  no_attributes_lem (a ∷ as') h = cc

  -- A module that is accepted as a contract is in line, without ink! attributes and reserved
  -- identifiers. Its items are one for each of the Rust items, in order: storage structs, which are
  -- public, events and implementation blocks that pass their checks, and items that stay as they
  -- are: `impl` blocks that have neither `#[ink(impl)]` first nor a function that is annotated as a
  -- message or a constructor, and other items without ink! attributes. One of them is the storage;
  -- there are a message and a constructor; and the selectors of all messages are pairwise different,
  -- and so are those of all constructors.
  pub module_from-Accepted :
      (m : RustMod) (items : List Item) → module_from selector_of m ≡ ok items → Accepted m items
  unfolding module_from partition_attributes
  module_from-Accepted m items made =
      let (_, h0, r0) = >>=-eq-ok (refuse_if m.has_ink_identifiers reserved_identifier) _ made in
      let (content, there, r1) = >>=-eq-ok (ok_or out_of_line m.content) _ r0 in
      let (parts, split, r2) = >>=-eq-ok (lift attribute (partition_attributes m.attrs)) _ r1 in
      let (_, none_left, r3) = >>=-eq-ok (ensure_no_attributes parts.0) _ r2 in
      let (items', collected, r4) = >>=-eq-ok (collect_items content) _ r3 in
      let (u, checked, r5) = >>=-eq-ok (lift module_error (ensure_valid selector_of items')) _ r4 in
      let valid = lift_ok module_error (ensure_valid selector_of items') u checked in
      let (_, _, _, overlap, _) = ensure_valid_steps selector_of items' valid in
      let (one, _, message, constructor) = ensure_valid-Complete selector_of items' valid in
      let (ms, ks) = (ensure_no_overlapping_selectors_iff selector_of items').0 overlap in
      subst (Accepted m) (ground arith) (record {
        no_reserved = ground arith;
        no_attributes = ground (arith, no_attributes_lem parts.0 none_left);
        becomes = (content, ground arith, collect_items-AllBecome content items' collected);
        one_storage = one;
        message = message;
        constructor = constructor;
        messages_differ = ms;
        constructors_differ = ks;
      })
