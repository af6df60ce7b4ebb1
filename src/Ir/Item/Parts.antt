-- ===== src/Ir/Item/Parts.antt =====
-- What the items of a module become, crates/ink/ir/src/ir/item/mod.rs.
use ink.Prelude.{
  ◌≡◌, refl, ap, subst, ◌∙◌, Bool-cases, Option, some, List, [], ◌∷◌, arith, inl, inr,
}
use ink.Prelude.Result.{Result, ok, err, >>=-eq-ok}
use ink.Ir.Attrs.{AttributeArg, AttributeArgKind, InkAttribute}
use ink.Ir.Attrs.Sanitize.{Attribute, ink_attrs, sanitize_attributes}
use ink.Ir.Attrs.Args.{Sanitized, sanitize_attributes_ok}
use ink.Ir.Callable.{ItemImpl}
use ink.Ir.Method.{Visibility}
use ink.Ir.ItemImpl.{
  ImplBlock, contains_ink_attributes, first_argument, is_ink_impl_block, item_impl_from,
}
use ink.Ir.ItemImpl.Items.{no_ink_attributes}
use ink.Ir.ItemImpl.Accepted
use ink.Ir.ItemImpl.Accepted.{item_impl_from-Accepted, MarkedImpl}
use ink.Ir.ItemImpl.Plain.{NoCallable, is_ink_impl_block-NoCallable}
use ink.Ir.ItemMod.{Item, InkItem}
use ink.Ir.Item.{
  ItemStruct, RustItem, Error, lift, attribute, block, conflicts_storage, conflicts_event,
  ensure_pub_visibility, storage_from, event_from, annotated_struct, item_from, collect_items,
}

-- What an item of an accepted module has become.
pub data Becomes : RustItem → Item → Type 0 where
  storage :
      (s : ItemStruct) (a : InkAttribute)
      → s.vis ≡ Visibility.public
      → Sanitized s.attrs AttributeArgKind.storage conflicts_storage a
      → Becomes (RustItem.struct_item s) (Item.ink_item InkItem.storage)
  event :
      (s : ItemStruct) (a : InkAttribute)
      → Sanitized s.attrs AttributeArgKind.event conflicts_event a
      → Becomes (RustItem.struct_item s) (Item.ink_item InkItem.event)
  impl_block :
      (b : ImplBlock) (i : ItemImpl)
      → Accepted.Accepted b i
      → Becomes (RustItem.impl_item b) (Item.ink_item (InkItem.impl_block i))
  plain_struct :
      (s : ItemStruct) → ink_attrs s.attrs ≡ [] → Becomes (RustItem.struct_item s) Item.rust_item
  plain_impl :
      (b : ImplBlock)
      → (MarkedImpl (ink_attrs b.attrs) → ⊥)
      → NoCallable b.items
      → Becomes (RustItem.impl_item b) Item.rust_item
  plain_item :
      (attrs : List Attribute)
      → ink_attrs attrs ≡ []
      → Becomes (RustItem.other_item attrs) Item.rust_item

-- One item for each of the module's, in order.
pub data AllBecome : List RustItem → List Item → Type 0 where
  nil : AllBecome [] []
  cons :
      {i : RustItem} {is : List RustItem} {item : Item} {items : List Item}
      → Becomes i item
      → AllBecome is items
      → AllBecome (i ∷ is) (item ∷ items)

pub lift_ok :
    {A E : Type 0} (wrap : E → Error) (r : Result A E) (a : A) → lift wrap r ≡ ok a → r ≡ ok a
lift_ok wrap (ok b) a h = ground arith
lift_ok wrap (err e) a h = cc

public_lem :
    (v : Visibility) {u : Unit {0}} → ensure_pub_visibility v ≡ ok u → v ≡ Visibility.public
unfolding ensure_pub_visibility
public_lem Visibility.public h = refl
public_lem Visibility.inherited h = cc
public_lem Visibility.restricted h = cc

storage_from-Becomes :
    (s : ItemStruct) (i : InkItem)
    → storage_from s ≡ ok i
    → Becomes (RustItem.struct_item s) (Item.ink_item i)
unfolding storage_from
storage_from-Becomes s i h =
    let r = sanitize_attributes s.attrs AttributeArgKind.storage conflicts_storage in
    let (parts, lifted, rest) = >>=-eq-ok (lift attribute r) _ h in
    let (_, visible, last) = >>=-eq-ok (ensure_pub_visibility s.vis) _ rest in
    let same : InkItem.storage ≡ i = ground arith in
    subst (λ x. Becomes (RustItem.struct_item s) (Item.ink_item x)) same
      (Becomes.storage s parts.0 (public_lem s.vis visible) (
        sanitize_attributes_ok s.attrs AttributeArgKind.storage conflicts_storage parts.0 parts.1
          (lift_ok attribute r parts lifted)))

event_from-Becomes :
    (s : ItemStruct) (i : InkItem)
    → event_from s ≡ ok i
    → Becomes (RustItem.struct_item s) (Item.ink_item i)
unfolding event_from
event_from-Becomes s i h =
    let r = sanitize_attributes s.attrs AttributeArgKind.event conflicts_event in
    let (parts, lifted, rest) = >>=-eq-ok (lift attribute r) _ h in
    let same : InkItem.event ≡ i = ground arith in
    subst (λ x. Becomes (RustItem.struct_item s) (Item.ink_item x)) same
      (Becomes.event s parts.0 (
        sanitize_attributes_ok s.attrs AttributeArgKind.event conflicts_event parts.0 parts.1
          (lift_ok attribute r parts lifted)))

annotated_struct-Becomes :
    (arg : Option AttributeArg) (s : ItemStruct) (i : InkItem)
    → annotated_struct arg s ≡ ok i
    → Becomes (RustItem.struct_item s) (Item.ink_item i)
annotated_struct-Becomes (some AttributeArg.storage) s i h = storage_from-Becomes s i h
annotated_struct-Becomes (some AttributeArg.event) s i h = event_from-Becomes s i h
annotated_struct-Becomes _ s i h = cc

item_from-Becomes : (i : RustItem) (item : Item) → item_from i ≡ ok item → Becomes i item
unfolding item_from
item_from-Becomes (RustItem.struct_item s) item h =
    elim (Bool-cases (contains_ink_attributes s.attrs)) [
      | inl some_ink ↦
          let (i, made, last) =
            >>=-eq-ok (annotated_struct (first_argument s.attrs) s) _ (rw some_ink at h) in
          subst (Becomes (RustItem.struct_item s)) (ground arith)
            (annotated_struct-Becomes (first_argument s.attrs) s i made)
      | inr bare ↦
          subst (Becomes (RustItem.struct_item s)) (ground (arith, rw bare at h))
            (Becomes.plain_struct s (no_ink_attributes s.attrs bare))
    ]
item_from-Becomes (RustItem.impl_item b) item h =
    let (is_ink, lifted, rest) = >>=-eq-ok (lift block (is_ink_impl_block b)) _ h in
    let known = lift_ok block (is_ink_impl_block b) is_ink lifted in
    elim (Bool-cases is_ink) [
      | inl is_one ↦
          let (i, made, last) = >>=-eq-ok (lift block (item_impl_from b)) _ (rw is_one at rest) in
          subst (Becomes (RustItem.impl_item b)) (ground arith) (
            Becomes.impl_block b i
              (item_impl_from-Accepted b i (lift_ok block (item_impl_from b) i made)))
      | inr is_none ↦ subst (Becomes (RustItem.impl_item b)) (ground (arith, rw is_none at rest)) (
          let (unmarked, no_callable) = is_ink_impl_block-NoCallable b (known ∙ ap ok is_none) in
          Becomes.plain_impl b unmarked no_callable)
    ]
item_from-Becomes (RustItem.other_item attrs) item h =
    elim (Bool-cases (contains_ink_attributes attrs)) [
      | inl some_ink ↦ absurd (ground (arith, rw some_ink at h))
      | inr bare ↦
          subst (Becomes (RustItem.other_item attrs)) (ground (arith, rw bare at h))
            (Becomes.plain_item attrs (no_ink_attributes attrs bare))
    ]

pub collect_items-AllBecome :
    (is : List RustItem) (items : List Item) → collect_items is ≡ ok items → AllBecome is items
unfolding collect_items
collect_items-AllBecome [] items made = subst (AllBecome []) (ground arith) AllBecome.nil
collect_items-AllBecome (i ∷ is) items made =
    let (item, first, rest) = >>=-eq-ok (item_from i) _ made in
    let (items', later, last) = >>=-eq-ok (collect_items is) _ rest in
    subst (AllBecome (i ∷ is)) (ground arith)
      (AllBecome.cons (item_from-Becomes i item first) (collect_items-AllBecome is items' later))
