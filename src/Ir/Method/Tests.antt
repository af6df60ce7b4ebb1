-- ===== src/Ir/Method/Tests.antt =====
-- Tests of crates/ink/ir/src/ir/item_impl/message.rs and constructor.rs: a message and a constructor
-- that are accepted.
use ink.Prelude.{◌≡◌, refl, true, false, none, List, [], ◌∷◌}
use ink.Prelude.Result.{ok}
use ink.Ir.Attrs.{
  AttributeArg, ensure_no_duplicate_args, kind, kind_beq, frag_beq, contains_frag, check_args,
  from_expanded,
}
use ink.Ir.Attrs.Sanitize.{
  Attribute, sanitize_attributes, partition_attributes, ensure_first, ensure_no_conflicts,
  ensure_no_duplicate_attrs, selector, is_payable, is_default,
}
use ink.Ir.Callable.{Callable}
use ink.Ir.Method.{
  Visibility, FnArg, ReturnType, ImplItemFn, ensure_callable_invariants,
  ensure_receiver_is_self_ref, ensure_not_return_self, ensure_return, ensure_no_self_receiver,
  message_from, constructor_from,
}

abbrev only : AttributeArg → List Attribute
only arg =
    Attribute.ink_attr (record {
      args =
          record { ast = b'm' ∷ []; arg = arg }
          ∷ record { ast = b'p' ∷ []; arg = AttributeArg.payable }
          ∷ [];
    })
    ∷ []

-- `#[ink(message, payable)] pub fn f(&self, x: T)`
abbrev message_fn : ImplItemFn
message_fn = record {
  ident = b'f' ∷ [];
  vis = Visibility.public;
  generic_params = 0;
  is_const = false;
  is_async = false;
  is_unsafe = false;
  has_abi = false;
  is_variadic = false;
  inputs = FnArg.receiver true ∷ FnArg.typed true ∷ [];
  output = ReturnType.default_return;
  attrs = only AttributeArg.message;
}

-- `#[ink(constructor, payable)] pub fn f(x: T) -> Self`
abbrev constructor_fn : ImplItemFn
constructor_fn = record message_fn {
  inputs = FnArg.typed true ∷ [];
  output = ReturnType.returns true;
  attrs = only AttributeArg.constructor;
}

abbrev payable_call : Callable
payable_call = record { ident = b'f' ∷ []; selector = none; is_payable = true; is_default = false }

message_accepted : message_from message_fn ≡ ok payable_call
unfolding message_from ensure_callable_invariants ensure_receiver_is_self_ref ensure_not_return_self
    sanitize_attributes partition_attributes ensure_no_duplicate_attrs from_expanded
    ensure_no_duplicate_args check_args contains_frag frag_beq kind_beq kind ensure_first
    ensure_no_conflicts selector is_payable is_default
message_accepted = refl

constructor_accepted : constructor_from constructor_fn ≡ ok payable_call
unfolding constructor_from ensure_callable_invariants ensure_return ensure_no_self_receiver
    sanitize_attributes partition_attributes ensure_no_duplicate_attrs from_expanded
    ensure_no_duplicate_args check_args contains_frag frag_beq kind_beq kind ensure_first
    ensure_no_conflicts selector is_payable is_default
constructor_accepted = refl
