-- ===== src/Ir/ItemMod/Quantity.antt =====
-- The checks on the number of storage structs, messages and constructors of a contract module.
use ink.Prelude.{◌≡◌, ◌≢◌, ◌↔◌, Bool, true, ◌||◌, List, [], ◌∷◌, ◌++◌, arith, ret}
use ink.Prelude.Result.{ok}
use ink.Ir.Selector.{Selector}
use ink.Ir.Callable.{Callable, CallableWithSelector, ItemImpl, iter_messages, iter_constructors}
use ink.Ir.ItemMod.{
  Item, is_nonempty, any_message, any_constructor, InkItem, count_storage, impl_blocks,
  ensure_storage_struct_quantity, ensure_contains_message, ensure_contains_constructor,
  ensure_no_overlapping_selectors, ensure_valid_wildcard_selector_usage, ensure_valid, storage_item,
}

-- `ensure_storage_struct_quantity` accepts exactly one storage struct.
pub ensure_storage_struct_quantity_iff :
    (items : List Item) → (ensure_storage_struct_quantity items ≡ ok tt) ↔ (count_storage items ≡ 1)
unfolding ensure_storage_struct_quantity
ensure_storage_struct_quantity_iff items = ground arith

or_iff :
    {b : Bool} (cs : List CallableWithSelector) {ds : List CallableWithSelector}
    → (b ≡ true) ↔ (ds ≢ [])
    → ((is_nonempty cs || b) ≡ true) ↔ ((cs ++ ds) ≢ [])
or_iff [] h = h
or_iff (c ∷ cs) h = ground arith

module _ (selector_of : ItemImpl → Callable → Selector) where
  -- All the messages of a module, in the order of the source.
  abbrev pub all_messages : List ItemImpl → List CallableWithSelector
  all_messages [] = []
  all_messages (i ∷ is) = iter_messages selector_of i ++ all_messages is

  abbrev pub all_constructors : List ItemImpl → List CallableWithSelector
  all_constructors [] = []
  all_constructors (i ∷ is) = iter_constructors selector_of i ++ all_constructors is

  pub ensure_valid_steps :
      (items : List Item)
      → ensure_valid selector_of items ≡ ok tt
      → (ensure_storage_struct_quantity items ≡ ok tt)
        × (ensure_contains_message selector_of items ≡ ok tt)
        × (ensure_contains_constructor selector_of items ≡ ok tt)
        × (ensure_no_overlapping_selectors selector_of items ≡ ok tt)
        × (ensure_valid_wildcard_selector_usage selector_of items ≡ ok tt)
  unfolding ensure_valid
  ensure_valid_steps items h = ground arith

  any_message_iff :
      (is : List ItemImpl) → (any_message selector_of is ≡ true) ↔ (all_messages is ≢ [])
  any_message_iff [] = ground arith
  any_message_iff (i ∷ is) = or_iff (iter_messages selector_of i) (any_message_iff is)

  any_constructor_iff :
      (is : List ItemImpl) → (any_constructor selector_of is ≡ true) ↔ (all_constructors is ≢ [])
  any_constructor_iff [] = ground arith
  any_constructor_iff (i ∷ is) = or_iff (iter_constructors selector_of i) (any_constructor_iff is)

  pub ensure_contains_message_iff :
      (items : List Item)
      → (ensure_contains_message selector_of items ≡ ok tt)
        ↔ (all_messages (impl_blocks items) ≢ [])
  unfolding ensure_contains_message
  ensure_contains_message_iff items = ground (arith, any_message_iff (impl_blocks items))

  pub ensure_contains_constructor_iff :
      (items : List Item)
      → (ensure_contains_constructor selector_of items ≡ ok tt)
        ↔ (all_constructors (impl_blocks items) ≢ [])
  unfolding ensure_contains_constructor
  ensure_contains_constructor_iff items = ground (arith, any_constructor_iff (impl_blocks items))

  -- A module that passes `ensure_valid` has one storage struct, so that `ItemMod::storage` does not
  -- panic, a message and a constructor.
  pub ensure_valid-Complete :
      (items : List Item)
      → ensure_valid selector_of items ≡ ok tt
      → (count_storage items ≡ 1)
        × (storage_item items ≡ ret InkItem.storage)
        × (all_messages (impl_blocks items) ≢ [])
        × (all_constructors (impl_blocks items) ≢ [])
  unfolding storage_item
  ensure_valid-Complete items h =
      let (quantity, message, constructor, _, _) = ensure_valid_steps items h in
      let one = (ensure_storage_struct_quantity_iff items).0 quantity in
      (
        one,
        ground arith,
        (ensure_contains_message_iff items).0 message,
        (ensure_contains_constructor_iff items).0 constructor,
      )
