-- ===== src/Ir/ItemMod/Split.antt =====
-- What `ensure_valid_wildcard_selector_usage` of crates/ink/ir/src/ir/item_mod.rs makes of the same
-- callables in one `impl` block and in two.
use ink.Prelude.{◌≡◌, true, false, none, List, [], ◌∷◌, arith}
use ink.Prelude.Result.{ok, err}
use ink.Ir.Selector.{Selector}
use ink.Ir.Callable.{
  Callable, ItemImpl, ImplItem, iter_messages, iter_constructors, has_wildcard_selector,
  has_wildcard_complement_selector,
}
use ink.Ir.ItemMod.{
  Item, InkItem, Error, scan_messages, check_usage, scan_constructors, scan_blocks,
  ensure_valid_wildcard_selector_usage,
}

-- An inherent `impl` block without a namespace.
abbrev pub block : List ImplItem → Item
block items =
    Item.ink_item
      (InkItem.impl_block (record { namespace = none; trait_path = none; items = items }))

module _ (selector_of : ItemImpl → Callable → Selector) where
  -- Two constructors with a wildcard selector are refused in one block, and accepted in two.
  pub two_wildcard_constructors :
      (c d : Callable)
      → has_wildcard_selector c ≡ true
      → has_wildcard_selector d ≡ true
      → (ensure_valid_wildcard_selector_usage selector_of
            (block (ImplItem.constructor c ∷ ImplItem.constructor d ∷ []) ∷ [])
          ≡ err Error.overlapping_wildcard_constructors)
        × (ensure_valid_wildcard_selector_usage selector_of
              (block (ImplItem.constructor c ∷ []) ∷ block (ImplItem.constructor d ∷ []) ∷ [])
            ≡ ok tt)
  unfolding ensure_valid_wildcard_selector_usage scan_blocks scan_messages scan_constructors
      check_usage iter_messages iter_constructors
  two_wildcard_constructors c d hc hd = (ground arith, ground arith)

  -- A wildcard message and its complement are accepted in one block, and refused in two.
  pub wildcard_and_complement :
      (w o : Callable)
      → has_wildcard_selector w ≡ true
      → has_wildcard_selector o ≡ false
      → has_wildcard_complement_selector o ≡ true
      → (ensure_valid_wildcard_selector_usage selector_of
            (block (ImplItem.message w ∷ ImplItem.message o ∷ []) ∷ [])
          ≡ ok tt)
        × (ensure_valid_wildcard_selector_usage selector_of
              (block (ImplItem.message w ∷ []) ∷ block (ImplItem.message o ∷ []) ∷ [])
            ≡ err Error.missing_other_message)
  unfolding ensure_valid_wildcard_selector_usage scan_blocks scan_messages scan_constructors
      check_usage iter_messages iter_constructors
  wildcard_and_complement w o hw ho hc = (ground arith, ground arith)
