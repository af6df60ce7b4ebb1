-- ===== src/Codegen/Dispatch/Accepted.antt =====
-- The checks of crates/ink/ir/src/ir/item_mod.rs and the decoder of
-- crates/ink/codegen/src/generator/dispatch.rs together.
use ink.Prelude.{
  ℕ, ◌≡◌, refl, ap, ap₂, ◌∙◌, subst, sym, some, List, [], ◌∷◌, ◌++◌, Bytes, get_elem?, Option,
}
use ink.Prelude.Distinct.{Distinct}
use ink.Prelude.Result.{ok}
use ink.Ir.Selector.{Selector, to_bytes}
use ink.Ir.Callable.{Callable, CallableWithSelector, ItemImpl, TraitPath, iter_messages}
use ink.Ir.ItemMod.{Item, impl_blocks, ensure_no_overlapping_selectors}
use ink.Ir.ItemMod.Overlap.{selectors, message_selectors, ensure_no_overlapping_selectors_iff}
use ink.Codegen.Dispatch.{
  Dispatchable, decode_arm, decode_dispatch, TraitMessageInfo, message_info, infos_of_impl,
  infos_of_blocks, compose_messages_with_ids,
}
use ink.Codegen.Dispatch.Reach.{constants, decode_dispatch-reaches}

constants-append :
    {F Args : Type 0} (xs ys : List (Dispatchable F Args))
    → constants (xs ++ ys) ≡ constants xs ++ constants ys
constants-append [] ys = refl
constants-append (x ∷ xs) ys = ap (λ t. to_bytes x.selector ∷ t) (constants-append xs ys)

module _ (selector_of : ItemImpl → Callable → Selector)
    (registry : TraitPath → Bytes → TraitMessageInfo) {F Args : Type 0}
    (inputs : ItemImpl → Callable → Bytes → Option Args) (functions : ItemImpl → Callable → F) where
  -- What the traits say of the messages' selectors is what the contract composes.
  abbrev pub AgreesOn : ItemImpl → List CallableWithSelector → Type 0
  AgreesOn i [] = Unit
  AgreesOn i (c ∷ cs) =
      (to_bytes (message_info selector_of registry inputs functions i c).selector
        ≡ to_bytes c.composed_selector)
      × AgreesOn i cs

  abbrev pub Agrees : List ItemImpl → Type 0
  Agrees [] = Unit
  Agrees (i ∷ is) = AgreesOn i (iter_messages selector_of i) × Agrees is

  constants-infos_of_impl :
      (i : ItemImpl) (cs : List CallableWithSelector)
      → AgreesOn i cs
      → constants (infos_of_impl selector_of registry inputs functions i cs) ≡ selectors cs
  constants-infos_of_impl i [] agree = refl
  constants-infos_of_impl i (c ∷ cs) agree =
      ap₂ (λ x xs. x ∷ xs) agree.0 (constants-infos_of_impl i cs agree.1)

  constants-infos_of_blocks :
      (is : List ItemImpl)
      → Agrees is
      → constants (infos_of_blocks selector_of registry inputs functions is)
        ≡ message_selectors selector_of is
  constants-infos_of_blocks [] agree = refl
  constants-infos_of_blocks (i ∷ is) agree =
      constants-append _ _
      ∙ ap₂ (λ x y. x ++ y) (constants-infos_of_impl i (iter_messages selector_of i) agree.0)
          (constants-infos_of_blocks is agree.1)

  -- In a module that `ensure_no_overlapping_selectors` accepts, every message is reached: an input
  -- of its selector and of arguments that it can decode is decoded to it. The selectors that the
  -- traits give are those that the contract composes.
  pub message_reached :
      (items : List Item) (i : ℕ) (d : Dispatchable F Args) (rest : Bytes) (args : Args)
      → ensure_no_overlapping_selectors selector_of items ≡ ok tt
      → Agrees (impl_blocks items)
      → get_elem? (compose_messages_with_ids selector_of registry inputs functions items) i ≡ some d
      → d.decode_input rest ≡ some args
      → decode_dispatch
          (compose_messages_with_ids selector_of registry inputs functions items)
          (to_bytes d.selector ++ rest)
        ≡ ok (record { index = i; info = d; args = args })
  unfolding compose_messages_with_ids decode_arm
  message_reached items i d rest args accepted agree there decoded =
      let ds = infos_of_blocks selector_of registry inputs functions (impl_blocks items) in
      let fresh = ((ensure_no_overlapping_selectors_iff selector_of items).0 accepted).0 in
      let distinct : Distinct (constants ds) =
        subst Distinct (sym (constants-infos_of_blocks (impl_blocks items) agree)) fresh in
      decode_dispatch-reaches ds i d rest distinct there ∙ rw (decoded, decode_arm) refl
