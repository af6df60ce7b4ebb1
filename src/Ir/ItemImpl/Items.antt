-- ===== src/Ir/ItemImpl/Items.antt =====
-- The items of an `impl` block, and what they become, crates/ink/ir/src/ir/item_impl/impl_item.rs.
use ink.Prelude.{
  ◌≡◌, ◌≢◌, refl, ap, subst, ◌∙◌, Bool, true, false, Bool-cases, Option, none, some, List, [], ◌∷◌,
  arith, inl, inr, if◌then◌else◌,
}
use ink.Prelude.Result.{Result, ok, err, >>=-eq-ok}
use ink.Ir.Method
use ink.Ir.Attrs.{AttributeArg, AttributeArgKind}
use ink.Ir.Attrs.Sanitize.{Attribute, ink_attr, other_attr, ink_attrs}
use ink.Ir.Callable.{Callable, ImplItem}
use ink.Ir.Method.{
  Visibility, ReturnType, ImplItemFn, message_from, constructor_from, conflicts_message,
  conflicts_constructor,
}
use ink.Ir.Method.Checked.{
  Plain, StartsWithRef, HasNoReceiver, FromAttribute, message_from_ok, constructor_from_ok,
}
use ink.Ir.ItemImpl.{
  RustItem, contains_ink_attributes, first_argument, impl_item_from, any_callable, collect_items,
  check_visibilities, check_visibility, ensure_valid_visibility, annotated_fn, lift_method,
}

-- A public function exactly if the block is not that of a trait.
abbrev pub Visible : Bool → ImplItemFn → Type 0
Visible is_trait_impl f =
    if is_trait_impl then f.vis ≢ Visibility.public else f.vis ≡ Visibility.public

-- What an item of an accepted block has become.
pub data Becomes (is_trait_impl : Bool) : RustItem → ImplItem → Type 0 where
  message :
      (f : ImplItemFn) (c : Callable)
      → Visible is_trait_impl f
      → Plain f
      → StartsWithRef f.inputs
      → f.output ≢ ReturnType.returns true
      → FromAttribute f AttributeArgKind.message conflicts_message c
      → Becomes is_trait_impl (RustItem.fn_item f) (ImplItem.message c)
  constructor :
      (f : ImplItemFn) (c : Callable)
      → Visible is_trait_impl f
      → Plain f
      → HasNoReceiver f.inputs
      → f.output ≢ ReturnType.default_return
      → FromAttribute f AttributeArgKind.constructor conflicts_constructor c
      → Becomes is_trait_impl (RustItem.fn_item f) (ImplItem.constructor c)
  other_fn :
      (f : ImplItemFn)
      → ink_attrs f.attrs ≡ []
      → Becomes is_trait_impl (RustItem.fn_item f) ImplItem.other
  other_item :
      (attrs : List Attribute)
      → ink_attrs attrs ≡ []
      → Becomes is_trait_impl (RustItem.other_item attrs) ImplItem.other

-- One item for each of the block's, in order.
pub data AllBecome (is_trait_impl : Bool) : List RustItem → List ImplItem → Type 0 where
  nil : AllBecome is_trait_impl [] []
  cons :
      {i : RustItem} {is : List RustItem} {item : ImplItem} {items : List ImplItem}
      → Becomes is_trait_impl i item
      → AllBecome is_trait_impl is items
      → AllBecome is_trait_impl (i ∷ is) (item ∷ items)

pub no_ink_attributes :
    (attrs : List Attribute) → contains_ink_attributes attrs ≡ false → ink_attrs attrs ≡ []
no_ink_attributes [] h = refl
no_ink_attributes (ink_attr _ ∷ _) h = cc
no_ink_attributes (other_attr _ ∷ as') h = no_ink_attributes as' h

Visible-lem : (f : ImplItemFn) (t : Bool) → ensure_valid_visibility f.vis t ≡ ok tt → Visible t f
Visible-lem f true h = λ e. ground arith
Visible-lem f false h = ground arith

lift_method-eq :
    {A : Type 0} (make : A → ImplItem) (r : Result A Method.Error) (item : ImplItem)
    → lift_method make r ≡ ok item
    → (a : A) × (r ≡ ok a) × (make a ≡ item)
lift_method-eq make (ok a) item h = (a, refl, ground arith)
lift_method-eq make (err e) item h = cc

module _ (t : Bool) where
  message-Becomes :
      (f : ImplItemFn) (c : Callable)
      → message_from f ≡ ok c
      → ensure_valid_visibility f.vis t ≡ ok tt
      → Becomes t (RustItem.fn_item f) (ImplItem.message c)
  message-Becomes f c made seen =
      let (plain, receiver, output, attribute) = message_from_ok f c made in
      Becomes.message f c (Visible-lem f t seen) plain receiver output attribute

  constructor-Becomes :
      (f : ImplItemFn) (c : Callable)
      → constructor_from f ≡ ok c
      → ensure_valid_visibility f.vis t ≡ ok tt
      → Becomes t (RustItem.fn_item f) (ImplItem.constructor c)
  constructor-Becomes f c made seen =
      let (plain, receiver, output, attribute) = constructor_from_ok f c made in
      Becomes.constructor f c (Visible-lem f t seen) plain receiver output attribute

  annotated_fn-Becomes :
      (arg : Option AttributeArg) (f : ImplItemFn) (item : ImplItem)
      → annotated_fn arg f ≡ ok item
      → check_visibility t (RustItem.fn_item f) item ≡ ok tt
      → Becomes t (RustItem.fn_item f) item
  annotated_fn-Becomes (some AttributeArg.message) f item made seen =
      let (c, from, same) = lift_method-eq ImplItem.message (message_from f) item made in
      subst (Becomes t (RustItem.fn_item f)) same
        (message-Becomes f c from (ap (check_visibility t (RustItem.fn_item f)) same ∙ seen))
  annotated_fn-Becomes (some AttributeArg.constructor) f item made seen =
      let (c, from, same) = lift_method-eq ImplItem.constructor (constructor_from f) item made in
      subst (Becomes t (RustItem.fn_item f)) same
        (constructor-Becomes f c from (ap (check_visibility t (RustItem.fn_item f)) same ∙ seen))
  annotated_fn-Becomes _ f item made seen = cc

  item-Becomes :
      (i : RustItem) (item : ImplItem)
      → impl_item_from i ≡ ok item
      → check_visibility t i item ≡ ok tt
      → Becomes t i item
  unfolding impl_item_from
  item-Becomes (RustItem.fn_item f) item made seen =
      elim (Bool-cases (contains_ink_attributes f.attrs)) [
        | inl with ↦ annotated_fn-Becomes (first_argument f.attrs) f item (rw with at made) seen
        | inr without ↦
            subst (Becomes t (RustItem.fn_item f)) (ground (arith, rw without at made))
              (Becomes.other_fn f (no_ink_attributes f.attrs without))
      ]
  item-Becomes (RustItem.other_item attrs) item made seen =
      elim (Bool-cases (contains_ink_attributes attrs)) [
        | inl with ↦ absurd (ground (arith, rw with at made))
        | inr without ↦
            subst (Becomes t (RustItem.other_item attrs)) (ground (arith, rw without at made))
              (Becomes.other_item attrs (no_ink_attributes attrs without))
      ]

  pub collect_items-AllBecome :
      (is : List RustItem) (items : List ImplItem)
      → collect_items is ≡ ok items
      → check_visibilities t is items ≡ ok tt
      → AllBecome t is items
  unfolding collect_items check_visibilities
  collect_items-AllBecome [] [] made seen = AllBecome.nil
  collect_items-AllBecome [] (item ∷ items) made seen = cc
  collect_items-AllBecome (i ∷ is) items made seen =
      let (item, first, rest) = >>=-eq-ok (impl_item_from i) _ made in
      let (items', later, last) = >>=-eq-ok (collect_items is) _ rest in
      let same : item ∷ items' ≡ items = ground arith in
      let seen' : check_visibilities t (i ∷ is) (item ∷ items') ≡ ok tt =
        ap (check_visibilities t (i ∷ is)) same ∙ seen in
      let (u, one, others) = >>=-eq-ok (check_visibility t i item) _ seen' in
      subst (AllBecome t (i ∷ is)) same (
        AllBecome.cons (item-Becomes i item first one)
          (collect_items-AllBecome is items' later others))

-- A message or a constructor is among the items.
abbrev pub HasCallable : List ImplItem → Type 0
HasCallable [] = ⊥
HasCallable (ImplItem.message _ ∷ _) = Unit
HasCallable (ImplItem.constructor _ ∷ _) = Unit
HasCallable (ImplItem.other ∷ items) = HasCallable items

pub no_first_argument :
    (attrs : List Attribute) → ink_attrs attrs ≡ [] → first_argument attrs ≡ none
no_first_argument [] h = refl
no_first_argument (ink_attr _ ∷ _) h = cc
no_first_argument (other_attr _ ∷ as') h = no_first_argument as' h

pub any_callable-HasCallable :
    {t : Bool} {is : List RustItem} {items : List ImplItem}
    → AllBecome t is items
    → any_callable is ≡ true
    → HasCallable items
any_callable-HasCallable AllBecome.nil h = cc
any_callable-HasCallable (AllBecome.cons (Becomes.message f c _ _ _ _ _) rest) h = tt
any_callable-HasCallable (AllBecome.cons (Becomes.constructor f c _ _ _ _ _) rest) h = tt
any_callable-HasCallable (AllBecome.cons (Becomes.other_fn f bare) rest) h =
    any_callable-HasCallable rest (rw (no_first_argument f.attrs bare) at h)
any_callable-HasCallable (AllBecome.cons (Becomes.other_item attrs bare) rest) h =
    any_callable-HasCallable rest h
