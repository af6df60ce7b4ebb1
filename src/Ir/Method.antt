-- ===== src/Ir/Method.antt =====
-- How a Rust method becomes a message or a constructor: `ensure_callable_invariants` of
-- crates/ink/ir/src/ir/item_impl/callable.rs, and message.rs and constructor.rs beside it. Of the
-- method, the model has what the checks read; its attributes are parsed.
pub mod Checked
mod Tests
use ink.Prelude.{ℕ, Bool, true, false, not, ◌||◌, Option, none, some, List, [], ◌∷◌, Bytes, nat_beq}
use ink.Prelude.Result.{Result, ok, err, refuse_if, ◌>>=◌, ◌>>◌}
use ink.Ir.Attrs
use ink.Ir.Attrs.{AttributeArg, AttributeArgKind, InkAttribute}
use ink.Ir.Attrs.Sanitize.{Attribute, sanitize_attributes, is_payable, is_default, selector}
use ink.Ir.Callable.{Callable}

pub data Visibility : Type 0 where
  inherited restricted public : Visibility

-- A receiver, which may be a reference, or an argument, whose pattern may be an identifier.
pub data FnArg : Type 0 where
  receiver typed : Bool → FnArg

-- No return type, or one, which may be `Self`.
pub data ReturnType : Type 0 where
  default_return : ReturnType
  returns : Bool → ReturnType

-- `syn::ImplItemFn`
pub record ImplItemFn : Type 0 where
  pub ident : Bytes
  pub vis : Visibility
  pub generic_params : ℕ
  pub is_const : Bool
  pub is_async : Bool
  pub is_unsafe : Bool
  pub has_abi : Bool
  pub is_variadic : Bool
  pub inputs : List FnArg
  pub output : ReturnType
  pub attrs : List Attribute

pub data Error : Type 0 where
  bad_visibility generic const_fn async_fn unsafe_fn explicit_abi variadic no_identifier : Error
  no_self_ref returns_self missing_return self_receiver : Error
  attribute : Attrs.Error → Error

abbrev is_restricted : Visibility → Bool
is_restricted Visibility.restricted = true
is_restricted _ = false

-- Whether an argument's pattern is not an identifier.
abbrev pub any_pattern : List FnArg → Bool
any_pattern [] = false
any_pattern (FnArg.receiver _ ∷ args) = any_pattern args
any_pattern (FnArg.typed has_ident ∷ args) = not has_ident || any_pattern args

unfoldable pub ensure_callable_invariants : ImplItemFn → Result (Unit {0}) Error
ensure_callable_invariants m = do
  refuse_if (is_restricted m.vis) bad_visibility
  refuse_if (not (nat_beq m.generic_params 0)) generic
  refuse_if m.is_const const_fn
  refuse_if m.is_async async_fn
  refuse_if m.is_unsafe unsafe_fn
  refuse_if m.has_abi explicit_abi
  refuse_if m.is_variadic variadic
  refuse_if (any_pattern m.inputs) no_identifier

abbrev receiver_is_self_ref : List FnArg → Result (Unit {0}) Error
receiver_is_self_ref [] = err no_self_ref
receiver_is_self_ref (FnArg.typed _ ∷ _) = err no_self_ref
receiver_is_self_ref (FnArg.receiver is_reference ∷ _) = refuse_if (not is_reference) no_self_ref

unfoldable pub ensure_receiver_is_self_ref : ImplItemFn → Result (Unit {0}) Error
ensure_receiver_is_self_ref m = receiver_is_self_ref m.inputs

abbrev is_self : ReturnType → Bool
is_self ReturnType.default_return = false
is_self (ReturnType.returns self) = self

unfoldable pub ensure_not_return_self : ImplItemFn → Result (Unit {0}) Error
ensure_not_return_self m = refuse_if (is_self m.output) returns_self

abbrev is_default_return : ReturnType → Bool
is_default_return ReturnType.default_return = true
is_default_return (ReturnType.returns _) = false

unfoldable pub ensure_return : ImplItemFn → Result (Unit {0}) Error
ensure_return m = refuse_if (is_default_return m.output) missing_return

abbrev starts_with_receiver : List FnArg → Bool
starts_with_receiver [] = false
starts_with_receiver (FnArg.typed _ ∷ _) = false
starts_with_receiver (FnArg.receiver _ ∷ _) = true

unfoldable pub ensure_no_self_receiver : ImplItemFn → Result (Unit {0}) Error
ensure_no_self_receiver m = refuse_if (starts_with_receiver m.inputs) self_receiver

-- The closures of the two `sanitize_attributes`.
abbrev pub conflicts_message : AttributeArg → Bool
conflicts_message AttributeArg.message = false
conflicts_message AttributeArg.payable = false
conflicts_message AttributeArg.default = false
conflicts_message (AttributeArg.selector _) = false
conflicts_message _ = true

abbrev pub conflicts_constructor : AttributeArg → Bool
conflicts_constructor AttributeArg.constructor = false
conflicts_constructor AttributeArg.payable = false
conflicts_constructor AttributeArg.default = false
conflicts_constructor (AttributeArg.selector _) = false
conflicts_constructor _ = true

abbrev lift_error : {A : Type 0} → Result A Attrs.Error → Result A Error
lift_error (ok a) = ok a
lift_error (err e) = err (attribute e)

-- The fields that are read off the attribute.
abbrev pub callable_of : Bytes → InkAttribute → Callable
callable_of ident a = record {
  ident = ident;
  selector = selector a;
  is_payable = is_payable a;
  is_default = is_default a;
}

-- `TryFrom<syn::ImplItemFn> for Message`
unfoldable pub message_from : ImplItemFn → Result Callable Error
message_from m = do
  ensure_callable_invariants m
  ensure_receiver_is_self_ref m
  ensure_not_return_self m
  parts ← lift_error (sanitize_attributes m.attrs AttributeArgKind.message conflicts_message)
  ok (callable_of m.ident parts.0)

-- `TryFrom<syn::ImplItemFn> for Constructor`
unfoldable pub constructor_from : ImplItemFn → Result Callable Error
constructor_from m = do
  ensure_callable_invariants m
  ensure_return m
  ensure_no_self_receiver m
  parts ←
      lift_error (sanitize_attributes m.attrs AttributeArgKind.constructor conflicts_constructor)
  ok (callable_of m.ident parts.0)
