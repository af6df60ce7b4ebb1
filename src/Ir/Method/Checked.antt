-- ===== src/Ir/Method/Checked.antt =====
-- The methods that become messages and constructors, crates/ink/ir/src/ir/item_impl.
use ink.Prelude.{◌≡◌, ◌≢◌, refl, Bool, true, false, List, [], ◌∷◌, arith, Bytes, ◌⊎◌, inl, inr}
use ink.Prelude.Result.{Result, ok, err}
use ink.Ir.Attrs
use ink.Ir.Attrs.{AttributeArg, AttributeArgKind, InkAttribute}
use ink.Ir.Attrs.Sanitize.{sanitize_attributes}
use ink.Ir.Attrs.Args.{Sanitized, sanitize_attributes_ok}
use ink.Ir.Callable.{Callable}
use ink.Ir.Method.{
  Visibility, FnArg, ReturnType, ImplItemFn, any_pattern, ensure_callable_invariants,
  ensure_receiver_is_self_ref, ensure_not_return_self, ensure_return, ensure_no_self_receiver,
  conflicts_message, conflicts_constructor, callable_of, message_from, constructor_from,
}

-- A method of the plain form.
pub record Plain (m : ImplItemFn) : Type 0 where
  pub visible : m.vis ≢ Visibility.restricted
  pub not_generic : m.generic_params ≡ 0
  pub not_const : m.is_const ≡ false
  pub not_async : m.is_async ≡ false
  pub not_unsafe : m.is_unsafe ≡ false
  pub default_abi : m.has_abi ≡ false
  pub not_variadic : m.is_variadic ≡ false
  pub identifiers : any_pattern m.inputs ≡ false

ensure_callable_invariants-Plain : (m : ImplItemFn) → ensure_callable_invariants m ≡ ok tt → Plain m
unfolding ensure_callable_invariants
ensure_callable_invariants-Plain m h = record {
  visible = ground arith;
  not_generic = ground arith;
  not_const = ground arith;
  not_async = ground arith;
  not_unsafe = ground arith;
  default_abi = ground arith;
  not_variadic = ground arith;
  identifiers = ground arith;
}

abbrev pub StartsWithRef : List FnArg → Type 0
StartsWithRef [] = ⊥
StartsWithRef (FnArg.typed _ ∷ _) = ⊥
StartsWithRef (FnArg.receiver is_reference ∷ _) = is_reference ≡ true

abbrev pub HasNoReceiver : List FnArg → Type 0
HasNoReceiver [] = Unit
HasNoReceiver (FnArg.typed _ ∷ _) = Unit
HasNoReceiver (FnArg.receiver _ ∷ _) = ⊥

ensure_receiver_is_self_ref_ok :
    (m : ImplItemFn) → ensure_receiver_is_self_ref m ≡ ok tt → StartsWithRef m.inputs
unfolding ensure_receiver_is_self_ref
ensure_receiver_is_self_ref_ok m h = ground arith

ensure_no_self_receiver_ok :
    (m : ImplItemFn) → ensure_no_self_receiver m ≡ ok tt → HasNoReceiver m.inputs
unfolding ensure_no_self_receiver
ensure_no_self_receiver_ok m h = ground arith

sanitized_cases :
    (r : Result (InkAttribute × List Bytes) Attrs.Error)
    → ((a : InkAttribute) × (others : List Bytes) × (r ≡ ok (a, others)))
      ⊎ ((e : Attrs.Error) × (r ≡ err e))
sanitized_cases (ok (a, others)) = inl (a, others, refl)
sanitized_cases (err e) = inr (e, refl)

-- The attribute of an accepted method, and what is read off it.
pub record FromAttribute (m : ImplItemFn) (first : AttributeArgKind)
    (is_conflicting : AttributeArg → Bool) (c : Callable) : Type 0 where
  pub ink_attribute : InkAttribute
  pub sanitized : Sanitized m.attrs first is_conflicting ink_attribute
  pub fields : c ≡ callable_of m.ident ink_attribute

-- A method that becomes a message is plain, takes `&self` or `&mut self`, does not return `Self`, and
-- has attributes that pass the checks for a message, from which the message's flags and selector are
-- read.
pub message_from_ok :
    (m : ImplItemFn) (c : Callable)
    → message_from m ≡ ok c
    → Plain m
      × StartsWithRef m.inputs
      × (m.output ≢ ReturnType.returns true)
      × FromAttribute m AttributeArgKind.message conflicts_message c
unfolding message_from ensure_not_return_self
message_from_ok m c h =
    let attrs = sanitize_attributes m.attrs AttributeArgKind.message conflicts_message in
    (
      ensure_callable_invariants-Plain m (ground arith),
      ensure_receiver_is_self_ref_ok m (ground arith),
      ground arith,
      elim (sanitized_cases attrs) [
        | inl (a, others, e) ↦ record {
          ink_attribute = a;
          sanitized =
              sanitize_attributes_ok m.attrs AttributeArgKind.message conflicts_message a others e;
          fields = ground arith;
        }
        | inr (x, e) ↦ absurd (ground arith)
      ],
    )

-- A method that becomes a constructor is plain, has a return type and no receiver, and has attributes
-- that pass the checks for a constructor, from which its flags and selector are read.
pub constructor_from_ok :
    (m : ImplItemFn) (c : Callable)
    → constructor_from m ≡ ok c
    → Plain m
      × HasNoReceiver m.inputs
      × (m.output ≢ ReturnType.default_return)
      × FromAttribute m AttributeArgKind.constructor conflicts_constructor c
unfolding constructor_from ensure_return
constructor_from_ok m c h =
    let attrs = sanitize_attributes m.attrs AttributeArgKind.constructor conflicts_constructor in
    (
      ensure_callable_invariants-Plain m (ground arith),
      ensure_no_self_receiver_ok m (ground arith),
      ground arith,
      elim (sanitized_cases attrs) [
        | inl (a, others, e) ↦ record {
          ink_attribute = a;
          sanitized =
              sanitize_attributes_ok m.attrs AttributeArgKind.constructor conflicts_constructor a
                others e;
          fields = ground arith;
        }
        | inr (x, e) ↦ absurd (ground arith)
      ],
    )
