-- ===== src/Ir/Attrs/Args.antt =====
-- What the checks of crates/ink/ir/src/ir/attrs.rs establish about the arguments of an attribute.
use ink.Prelude.{
  ◌≡◌, ◌≢◌, ◌↔◌, refl, sym, ◌∙◌, Bool, true, false, some, List, [], ◌∷◌, arith, Option-cases, inl,
  inr, Bytes, bytes_eq,
}
use ink.Prelude.Distinct.{NotIn, Distinct, Fresh, Fresh-nil_iff}
use ink.Prelude.Result.{ok}
use ink.Ir.Attrs.{
  AttributeArg, AttributeArgKind, AttributeFrag, InkAttribute, kind, kind_beq, frag_beq,
  contains_frag, contains_kind, check_args, ensure_no_duplicate_args, from_expanded, flat_args,
}
use ink.Ir.Attrs.Sanitize.{
  sanitize_attributes, ensure_first, ensure_no_conflicts, count_conflicts, first_arg, Attribute,
  partition_attributes, ink_attrs,
}

abbrev pub kinds : List AttributeFrag → List AttributeArgKind
kinds [] = []
kinds (f ∷ fs) = kind f.arg ∷ kinds fs

pub kind_beq_iff : (k l : AttributeArgKind) → (kind_beq k l ≡ true) ↔ (k ≡ l)
unfolding kind_beq
kind_beq_iff AttributeArgKind.storage l = ground arith
kind_beq_iff AttributeArgKind.event l = ground arith
kind_beq_iff AttributeArgKind.anonymous l = ground arith
kind_beq_iff AttributeArgKind.message l = ground arith
kind_beq_iff AttributeArgKind.constructor l = ground arith
kind_beq_iff AttributeArgKind.payable l = ground arith
kind_beq_iff AttributeArgKind.default l = ground arith
kind_beq_iff AttributeArgKind.selector l = ground arith
kind_beq_iff AttributeArgKind.extension l = ground arith
kind_beq_iff AttributeArgKind.namespace l = ground arith
kind_beq_iff AttributeArgKind.implementation l = ground arith
kind_beq_iff AttributeArgKind.handle_status l = ground arith

contains_kind_iff :
    (k : AttributeArgKind) (ks : List AttributeArgKind) → (contains_kind k ks ≡ false) ↔ NotIn k ks
contains_kind_iff k [] = ground arith
contains_kind_iff k (l ∷ ls) = ground (arith, kind_beq_iff k l, contains_kind_iff k ls)

-- A fragment that was seen has a kind that was seen.
frag_kind : (f g : AttributeFrag) → frag_beq f g ≡ true → kind_beq (kind f.arg) (kind g.arg) ≡ true
unfolding frag_beq
frag_kind f g h = ground arith

contains_kind_of_frag :
    (f : AttributeFrag) (seen : List AttributeFrag)
    → contains_frag f seen ≡ true
    → contains_kind (kind f.arg) (kinds seen) ≡ true
unfolding contains_frag
contains_kind_of_frag f [] h = cc
contains_kind_of_frag f (g ∷ gs) h = ground (arith, contains_kind_of_frag f gs, frag_kind f g)

check_args_iff :
    (args seen : List AttributeFrag)
    → (check_args args seen (kinds seen) ≡ ok tt) ↔ Fresh (kinds seen) (kinds args)
unfolding check_args
check_args_iff [] seen = ground arith
check_args_iff (a ∷ args) seen = ground (
  arith,
  contains_kind_of_frag a seen,
  contains_kind_iff (kind a.arg) (kinds seen),
  check_args_iff args (a ∷ seen),
)

-- `ensure_no_duplicate_args` accepts exactly the arguments of pairwise different kinds.
pub ensure_no_duplicate_args_iff :
    (args : List AttributeFrag) → (ensure_no_duplicate_args args ≡ ok tt) ↔ Distinct (kinds args)
unfolding ensure_no_duplicate_args
ensure_no_duplicate_args_iff args =
    let (to, from) = check_args_iff args [] in
    let (split, join) = Fresh-nil_iff (kinds args) in ((λ h. split (to h)), (λ h. from (join h)))

abbrev pub Accepts : (AttributeArg → Bool) → List AttributeFrag → Type 0
Accepts is_conflicting [] = Unit
Accepts is_conflicting (f ∷ fs) = (is_conflicting f.arg ≡ false) × Accepts is_conflicting fs

no_conflicts :
    (p : AttributeArg → Bool) (fs : List AttributeFrag) → count_conflicts p fs ≡ 0 → Accepts p fs
no_conflicts p [] h = tt
no_conflicts p (f ∷ fs) h = ground (arith, no_conflicts p fs)

pub ensure_no_conflicts-Accepts :
    (p : AttributeArg → Bool) (a : InkAttribute)
    → ensure_no_conflicts p a ≡ ok tt
    → Accepts p a.args
unfolding ensure_no_conflicts
ensure_no_conflicts-Accepts p a h = no_conflicts p a.args (ground arith)

from_args_ok :
    (fs : List AttributeFrag) (attrs : List InkAttribute) (a : InkAttribute)
    → flat_args attrs ≡ fs
    → from_expanded attrs ≡ ok a
    → (a.args ≡ fs) × (ensure_no_duplicate_args a.args ≡ ok tt) × (fs ≢ [])
unfolding from_expanded
from_args_ok [] attrs a e h = absurd (ground arith)
from_args_ok (f ∷ fs) attrs a e h = ground arith

pub from_expanded_ok :
    (attrs : List InkAttribute) (a : InkAttribute)
    → from_expanded attrs ≡ ok a
    → (a.args ≡ flat_args attrs) × Distinct (kinds a.args) × (a.args ≢ [])
from_expanded_ok attrs a h =
    let (same, distinct, full) = from_args_ok (flat_args attrs) attrs a refl h in
    (same, (ensure_no_duplicate_args_iff a.args).0 distinct, (λ e. full (sym same ∙ e)))

pub ensure_first_ok :
    (k : AttributeArgKind) (a : InkAttribute)
    → ensure_first k a ≡ ok tt
    → (f : AttributeArg) × (first_arg a.args ≡ some f) × (kind f ≡ k)
unfolding ensure_first
ensure_first_ok k a h = elim (Option-cases (first_arg a.args)) [
  | inl e ↦ absurd (ground arith)
  | inr (f, e) ↦ (f, e, ground (arith, kind_beq_iff (kind f) k))
]

-- The checks of `sanitize_attributes`, when it accepts.
pub record Sanitized (attrs : List Attribute) (first : AttributeArgKind)
    (is_conflicting : AttributeArg → Bool) (a : InkAttribute) : Type 0 where
  pub from_attrs : a.args ≡ flat_args (ink_attrs attrs)
  pub first_kind : (f : AttributeArg) × (first_arg a.args ≡ some f) × (kind f ≡ first)
  pub distinct : Distinct (kinds a.args)
  pub accepted : Accepts is_conflicting a.args

sanitize_steps :
    (attrs : List Attribute) (first : AttributeArgKind) (p : AttributeArg → Bool) (a : InkAttribute)
    (others : List Bytes)
    → sanitize_attributes attrs first p ≡ ok (a, others)
    → (from_expanded (ink_attrs attrs) ≡ ok a)
      × (ensure_first first a ≡ ok tt)
      × (ensure_no_conflicts p a ≡ ok tt)
unfolding sanitize_attributes partition_attributes
sanitize_steps attrs first p a others h = ground arith

-- Where `sanitize_attributes` accepts, its result has the arguments of all the ink! attributes, of
-- pairwise different kinds, the first of them of the wanted kind, and none of them is conflicting.
pub sanitize_attributes_ok :
    (attrs : List Attribute) (first : AttributeArgKind) (is_conflicting : AttributeArg → Bool)
    (a : InkAttribute) (others : List Bytes)
    → sanitize_attributes attrs first is_conflicting ≡ ok (a, others)
    → Sanitized attrs first is_conflicting a
sanitize_attributes_ok attrs first p a others h =
    let (expanded, leads, peaceful) = sanitize_steps attrs first p a others h in
    let (same, distinct, _) = from_expanded_ok (ink_attrs attrs) a expanded in
    record {
      from_attrs = same;
      first_kind = ensure_first_ok first a leads;
      distinct = distinct;
      accepted = ensure_no_conflicts-Accepts p a peaceful;
    }
