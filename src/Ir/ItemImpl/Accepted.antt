-- ===== src/Ir/ItemImpl/Accepted.antt =====
-- The blocks that are accepted as ink! implementation blocks, crates/ink/ir/src/ir/item_impl/mod.rs.
use ink.Prelude.{
  ◌≡◌, ◌≢◌, refl, sym, ap, subst, ◌∙◌, Bool, true, false, not, ◌&&◌, Bool-cases, Option, none, some,
  List, [], ◌∷◌, Bytes, arith, ◌⊎◌, inl, inr, nat_beq,
}
use ink.Prelude.Result.{ok, refuse_if, >>=-eq-ok, Result-cases}
use ink.Ir.Attrs.{
  AttributeArg, AttributeArgKind, AttributeFrag, InkAttribute, from_expanded, flat_args, kind,
}
use ink.Ir.Attrs.Sanitize.{
  Attribute, first_arg, ink_attrs, partition_attributes, find_namespace, namespace,
}
use ink.Ir.Attrs.Args.{Accepts, from_expanded_ok, ensure_first_ok, ensure_no_conflicts-Accepts}
use ink.Ir.Callable.{ItemImpl}
use ink.Ir.ItemImpl.{
  ImplBlock, Error, contains_ink_attributes, any_callable, is_ink_impl_block, collect_items,
  check_visibilities, item_impl_from, is_some, marked, namespace_of, conflicts_impl, any_attributes,
  lift_attribute, not_annotated, default_block, unsafe_block, generic_block, namespace_on_trait,
}
use ink.Ir.ItemImpl.Items.{
  AllBecome, HasCallable, collect_items-AllBecome, any_callable-HasCallable,
}

-- The block's own arguments start with `impl`.
abbrev pub MarkedImpl : List InkAttribute → Type 0
MarkedImpl attrs =
    (f : AttributeArg) × (first_arg (flat_args attrs) ≡ some f)
    × (kind f ≡ AttributeArgKind.implementation)

marked-MarkedImpl : (attrs : List InkAttribute) → marked attrs ≡ ok true → MarkedImpl attrs
marked-MarkedImpl [] h = cc
marked-MarkedImpl (a ∷ as') h = elim (Result-cases (from_expanded (a ∷ as'))) [
  | inl (n, e) ↦
      let (same, _, _) = from_expanded_ok (a ∷ as') n e in
      let (f, first, is) =
        ensure_first_ok AttributeArgKind.implementation n (ground (arith, rw e at h)) in
      (f, ap first_arg (sym same) ∙ first, is)
  | inr (x, e) ↦ absurd (ground (arith, rw e at h))
]

namespace_of-Accepts :
    (attrs : List InkAttribute) (ns : Option Bytes)
    → namespace_of attrs ≡ ok ns
    → Accepts conflicts_impl (flat_args attrs)
namespace_of-Accepts [] ns h = tt
namespace_of-Accepts (a ∷ as') ns h = elim (Result-cases (from_expanded (a ∷ as'))) [
  | inl (n, e) ↦
      let (same, _, _) = from_expanded_ok (a ∷ as') n e in
      subst (Accepts conflicts_impl) same
        (ensure_no_conflicts-Accepts conflicts_impl n (ground (arith, rw e at h)))
  | inr (x, e) ↦ absurd (ground (arith, rw e at h))
]

not_refused : (t : Bool) (e : Error) {u : Unit {0}} → refuse_if t e ≡ ok u → t ≡ false
not_refused true e h = cc
not_refused false e h = refl

pub partitioned :
    (attrs : List Attribute) (parts : List InkAttribute × List Bytes)
    → lift_attribute (partition_attributes attrs) ≡ ok parts
    → parts.0 ≡ ink_attrs attrs
unfolding partition_attributes
partitioned attrs parts h = ground arith

is_ink_impl_block-cases :
    (b : ImplBlock)
    → is_ink_impl_block b ≡ ok true
    → MarkedImpl (ink_attrs b.attrs) ⊎ (any_callable b.items ≡ true)
unfolding is_ink_impl_block
is_ink_impl_block-cases b h =
    elim (Bool-cases (not (contains_ink_attributes b.attrs) && not (any_attributes b.items))) [
      | inl bare ↦ absurd (ground (arith, rw bare at h))
      | inr some_ink ↦
          let (parts, split, r) =
            >>=-eq-ok (lift_attribute (partition_attributes b.attrs)) _ (rw some_ink at h) in
          let (by_itself, is, r') = >>=-eq-ok (marked parts.0) _ r in
          elim (Bool-cases by_itself) [
            | inl m ↦ inl (
                subst MarkedImpl (partitioned b.attrs parts split)
                  (marked-MarkedImpl parts.0 (is ∙ ap ok m)))
            | inr n ↦ inr (ground arith)
          ]
    ]

-- No argument is a namespace.
abbrev pub NoNamespace : List AttributeFrag → Type 0
NoNamespace [] = Unit
NoNamespace (f ∷ fs) = (kind f.arg ≢ AttributeArgKind.namespace) × NoNamespace fs

namespace_of-find_namespace :
    (attrs : List InkAttribute) (ns : Option Bytes)
    → namespace_of attrs ≡ ok ns
    → ns ≡ find_namespace (flat_args attrs)
unfolding namespace
namespace_of-find_namespace [] ns h = ground arith
namespace_of-find_namespace (a ∷ as') ns h = elim (Result-cases (from_expanded (a ∷ as'))) [
  | inl (n, e) ↦
      let (same, _, _) = from_expanded_ok (a ∷ as') n e in
      ground (arith, rw e at h) ∙ ap find_namespace same
  | inr (x, e) ↦ absurd (ground (arith, rw e at h))
]

find_namespace-NoNamespace : (fs : List AttributeFrag) → find_namespace fs ≡ none → NoNamespace fs
unfolding kind
find_namespace-NoNamespace [] h = tt
find_namespace-NoNamespace (f ∷ fs) h =
    ((λ k. ground arith), find_namespace-NoNamespace fs (ground arith))

-- What holds of a block that is accepted.
pub record Accepted (b : ImplBlock) (i : ItemImpl) : Type 0 where
  pub annotated : MarkedImpl (ink_attrs b.attrs) ⊎ HasCallable i.items
  pub not_default : b.has_defaultness ≡ false
  pub not_unsafe : b.is_unsafe ≡ false
  pub not_generic : b.generic_params ≡ 0
  pub becomes : AllBecome (is_some b.trait_path) b.items i.items
  pub accepted : Accepts conflicts_impl (flat_args (ink_attrs b.attrs))
  pub same_trait : i.trait_path ≡ b.trait_path
  pub named : i.namespace ≡ find_namespace (flat_args (ink_attrs b.attrs))
  pub inherent : b.trait_path ≢ none → NoNamespace (flat_args (ink_attrs b.attrs))

-- A block that is accepted is annotated by `#[ink(impl)]` first, or has a message or a constructor; it
-- is not a default, unsafe or generic one, and has no ink! arguments but `impl` and `namespace`, and
-- the latter only where it is not that of a trait; its namespace is the argument's. Its items are one
-- for each of the Rust items, in order: messages and constructors from functions that pass their
-- checks, public exactly if the block is not that of a trait, and others, which have no ink!
-- attributes.
pub item_impl_from-Accepted :
    (b : ImplBlock) (i : ItemImpl) → item_impl_from b ≡ ok i → Accepted b i
unfolding item_impl_from
item_impl_from-Accepted b i made =
    let (annotated, is_ink, r0) = >>=-eq-ok (is_ink_impl_block b) _ made in
    let (_, h1, r1) = >>=-eq-ok (refuse_if (not annotated) not_annotated) _ r0 in
    let (_, h2, r2) = >>=-eq-ok (refuse_if b.has_defaultness default_block) _ r1 in
    let (_, h3, r3) = >>=-eq-ok (refuse_if b.is_unsafe unsafe_block) _ r2 in
    let (_, h4, r4) = >>=-eq-ok (refuse_if (not (nat_beq b.generic_params 0)) generic_block) _ r3 in
    let (items, collected, r5) = >>=-eq-ok (collect_items b.items) _ r4 in
    let (_, seen, r6) = >>=-eq-ok (check_visibilities (is_some b.trait_path) b.items items) _ r5 in
    let (parts, split, r7) = >>=-eq-ok (lift_attribute (partition_attributes b.attrs)) _ r6 in
    let (ns, named, r8) = >>=-eq-ok (namespace_of parts.0) _ r7 in
    let (_, h9, r9) =
      >>=-eq-ok (refuse_if (is_some ns && is_some b.trait_path) namespace_on_trait) _ r8 in
    let ended : record { namespace = ns; trait_path = b.trait_path; items = items } ≡ i =
      ground arith in
    let all = collect_items-AllBecome (is_some b.trait_path) b.items items collected seen in
    let is : annotated ≡ true = ground (arith, not_refused _ _ h1) in
    let found : ns ≡ find_namespace (flat_args (ink_attrs b.attrs)) =
      namespace_of-find_namespace parts.0 ns named
      ∙ ap (λ a. find_namespace (flat_args a)) (partitioned b.attrs parts split) in
    subst (Accepted b) ended (record {
      annotated = elim (is_ink_impl_block-cases b (is_ink ∙ ap ok is)) [
        | inl m ↦ inl m
        | inr c ↦ inr (any_callable-HasCallable all c)
      ];
      not_default = not_refused _ _ h2;
      not_unsafe = not_refused _ _ h3;
      not_generic = ground (arith, not_refused _ _ h4);
      becomes = all;
      accepted =
          subst (λ a. Accepts conflicts_impl (flat_args a)) (partitioned b.attrs parts split)
            (namespace_of-Accepts parts.0 ns named);
      same_trait = refl;
      named = found;
      inherent = λ h.
          find_namespace-NoNamespace (flat_args (ink_attrs b.attrs))
            (sym found ∙ ground (arith, not_refused _ _ h9));
    })
