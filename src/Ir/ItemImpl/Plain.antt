-- ===== src/Ir/ItemImpl/Plain.antt =====
-- The `impl` blocks that `is_ink_impl_block` leaves as they are, crates/ink/ir/src/ir/item_impl/mod.rs.
use ink.Prelude.{
  ◌≡◌, ◌≢◌, refl, ap, subst, ◌∙◌, false, not, ◌&&◌, Bool-cases, some, List, [], ◌∷◌, arith, inl,
  inr,
}
use ink.Prelude.Result.{ok, >>=-eq-ok, Result-cases}
use ink.Ir.Attrs.{AttributeArg, AttributeArgKind, InkAttribute, from_expanded, kind}
use ink.Ir.Attrs.Sanitize.{first_arg, ink_attrs, ensure_first, partition_attributes}
use ink.Ir.Attrs.Args.{from_expanded_ok, kind_beq_iff}
use ink.Ir.ItemImpl.{
  RustItem, ImplBlock, contains_ink_attributes, first_argument, any_callable, is_ink_impl_block,
  marked, any_attributes, lift_attribute, is_ok,
}
use ink.Ir.ItemImpl.Items.{no_ink_attributes, no_first_argument}
use ink.Ir.ItemImpl.Accepted.{MarkedImpl, partitioned}

-- No function starts its ink! arguments with `message` or `constructor`.
abbrev pub NoCallable : List RustItem → Type 0
NoCallable [] = Unit
NoCallable (RustItem.fn_item f ∷ is) =
    (first_argument f.attrs ≢ some AttributeArg.message)
    × (first_argument f.attrs ≢ some AttributeArg.constructor)
    × NoCallable is
NoCallable (RustItem.other_item _ ∷ is) = NoCallable is

any_callable-NoCallable : (is : List RustItem) → any_callable is ≡ false → NoCallable is
any_callable-NoCallable [] h = tt
any_callable-NoCallable (RustItem.fn_item f ∷ is) h = (
  (λ e. ground (arith, rw e at h)),
  (λ e. ground (arith, rw e at h)),
  any_callable-NoCallable is (ground arith),
)
any_callable-NoCallable (RustItem.other_item _ ∷ is) h = any_callable-NoCallable is h

bare-NoCallable : (is : List RustItem) → any_attributes is ≡ false → any_callable is ≡ false
bare-NoCallable [] h = refl
bare-NoCallable (RustItem.fn_item f ∷ is) h =
    let bare : contains_ink_attributes f.attrs ≡ false = ground arith in
    rw (no_first_argument f.attrs (no_ink_attributes f.attrs bare))
      (bare-NoCallable is (ground arith))
bare-NoCallable (RustItem.other_item attrs ∷ is) h = bare-NoCallable is (ground arith)

not_first :
    (n : InkAttribute) (f : AttributeArg)
    → is_ok (ensure_first AttributeArgKind.implementation n) ≡ false
    → first_arg n.args ≡ some f
    → kind f ≢ AttributeArgKind.implementation
unfolding ensure_first
not_first n f h first is =
    ground (arith, h, first, kind_beq_iff (kind f) AttributeArgKind.implementation)

unmarked : (attrs : List InkAttribute) → marked attrs ≡ ok false → MarkedImpl attrs → ⊥
unmarked [] h (f, first, is) = cc
unmarked (a ∷ as') h (f, first, is) = elim (Result-cases (from_expanded (a ∷ as'))) [
  | inl (n, e) ↦
      let (same, _, _) = from_expanded_ok (a ∷ as') n e in
      not_first n f (ground (arith, rw e at h)) (ap first_arg same ∙ first) is
  | inr (x, e) ↦ absurd (ground (arith, rw e at h))
]

-- A block that is left as it is does not have `#[ink(impl)]` first, and no message or constructor.
pub is_ink_impl_block-NoCallable :
    (b : ImplBlock)
    → is_ink_impl_block b ≡ ok false
    → (MarkedImpl (ink_attrs b.attrs) → ⊥) × NoCallable b.items
unfolding is_ink_impl_block
is_ink_impl_block-NoCallable b h =
    elim (Bool-cases (not (contains_ink_attributes b.attrs) && not (any_attributes b.items))) [
      | inl bare ↦
          let nothing = no_ink_attributes b.attrs (ground arith) in
          (
            (λ m. unmarked [] refl (subst MarkedImpl nothing m)),
            any_callable-NoCallable b.items (bare-NoCallable b.items (ground arith)),
          )
      | inr some_ink ↦
          let (parts, split, r) =
            >>=-eq-ok (lift_attribute (partition_attributes b.attrs)) _ (rw some_ink at h) in
          let (by_itself, is, r') = >>=-eq-ok (marked parts.0) _ r in
          let not_itself : by_itself ≡ false = ground arith in
          (
            subst (λ a. MarkedImpl a → ⊥) (partitioned b.attrs parts split)
                (unmarked parts.0 (is ∙ ap ok not_itself)),
            any_callable-NoCallable b.items (ground arith),
          )
    ]
