-- ===== src/Ir/ItemImpl/Tests.antt =====
-- A block with one message and one other function, and that it is accepted.
use ink.Prelude.{◌≡◌, refl, true, false, none, [], ◌∷◌}
use ink.Prelude.Result.{ok}
use ink.Ir.Attrs.{
  AttributeArg, ensure_no_duplicate_args, kind, kind_beq, frag_beq, contains_frag, check_args,
  from_expanded,
}
use ink.Ir.Attrs.Sanitize.{
  Attribute, sanitize_attributes, partition_attributes, ensure_first, ensure_no_conflicts,
  ensure_no_duplicate_attrs, selector, is_payable, is_default,
}
use ink.Ir.Callable.{ImplItem, ItemImpl}
use ink.Ir.Method.{
  Visibility, FnArg, ReturnType, ImplItemFn, ensure_callable_invariants,
  ensure_receiver_is_self_ref, ensure_not_return_self, message_from,
}
use ink.Ir.ItemImpl.{
  RustItem, ImplBlock, impl_item_from, is_ink_impl_block, collect_items, check_visibilities,
  item_impl_from,
}
use ink.Ir.ItemImpl.Accepted.{Accepted, item_impl_from-Accepted}

-- `#[ink(message)] pub fn f(&self)`
abbrev message_fn : ImplItemFn
message_fn = record {
  ident = b'f' ∷ [];
  vis = Visibility.public;
  generic_params = 0;
  is_const = false;
  is_async = false;
  is_unsafe = false;
  has_abi = false;
  is_variadic = false;
  inputs = FnArg.receiver true ∷ [];
  output = ReturnType.default_return;
  attrs =
      Attribute.ink_attr
        (record { args = record { ast = b'm' ∷ []; arg = AttributeArg.message } ∷ [] })
      ∷ [];
}

abbrev plain_fn : ImplItemFn
plain_fn = record message_fn { vis = Visibility.inherited; attrs = Attribute.other_attr [] ∷ [] }

abbrev block : ImplBlock
block = record {
  attrs = [];
  has_defaultness = false;
  is_unsafe = false;
  generic_params = 0;
  trait_path = none;
  items = RustItem.fn_item message_fn ∷ RustItem.fn_item plain_fn ∷ [];
}

abbrev made : ItemImpl
made = record {
  namespace = none;
  trait_path = none;
  items =
      ImplItem.message
        (record { ident = b'f' ∷ []; selector = none; is_payable = false; is_default = false })
      ∷ ImplItem.other
      ∷ [];
}

accepted : item_impl_from block ≡ ok made
unfolding item_impl_from is_ink_impl_block collect_items impl_item_from check_visibilities
    message_from ensure_callable_invariants ensure_receiver_is_self_ref ensure_not_return_self
    sanitize_attributes partition_attributes ensure_no_duplicate_attrs from_expanded
    ensure_no_duplicate_args check_args contains_frag frag_beq kind_beq kind ensure_first
    ensure_no_conflicts selector is_payable is_default
accepted = refl

item_impl_from-Accepted_example : Accepted block made
item_impl_from-Accepted_example = item_impl_from-Accepted block made accepted
