-- ===== src/Ir/Attrs/Sanitize.antt =====
-- The accessors of an ink! attribute and `sanitize_attributes`, crates/ink/ir/src/ir/attrs.rs.
use ink.Prelude.{
  ℕ, ◌+◌, Bool, true, false, not, ◌||◌, ◌&&◌, Option, none, some, List, [], ◌∷◌, Bytes,
  if◌then◌else◌, nat_beq,
}
use ink.Prelude.Result.{Result, ok, err, ◌>>=◌, ◌>>◌}
use ink.Ir.Attrs.{
  AttributeArg, AttributeArgKind, AttributeFrag, InkAttribute, SelectorOrWildcard, wildcard, Error,
  kind, kind_beq, frag_beq, unexpected_first, conflicting, duplicate_attribute, from_expanded,
}

-- `first` panics on an empty list, which no constructor of the type makes: it is `none` here.
abbrev pub first_arg : List AttributeFrag → Option AttributeArg
first_arg [] = none
first_arg (f ∷ _) = some f.arg

unfoldable pub ensure_first : AttributeArgKind → InkAttribute → Result (Unit {0}) Error
unfolding kind
ensure_first expected a = elim (first_arg a.args) [
  | none ↦ err unexpected_first
  | some arg ↦ if kind_beq (kind arg) expected then ok tt else err unexpected_first
]

-- `find_map` over the arguments.
abbrev find_selector : List AttributeFrag → Option SelectorOrWildcard
find_selector [] = none
find_selector (f ∷ fs) =
    let rest = find_selector fs in elim f.arg [ AttributeArg.selector s ↦ some s | _ ↦ rest ]

abbrev pub find_namespace : List AttributeFrag → Option Bytes
find_namespace [] = none
find_namespace (f ∷ fs) =
    let rest = find_namespace fs in elim f.arg [ AttributeArg.namespace n ↦ some n | _ ↦ rest ]

unfoldable pub selector : InkAttribute → Option SelectorOrWildcard
selector a = find_selector a.args

unfoldable pub namespace : InkAttribute → Option Bytes
namespace a = find_namespace a.args

abbrev any_arg : (AttributeArg → Bool) → List AttributeFrag → Bool
any_arg p [] = false
any_arg p (f ∷ fs) = p f.arg || any_arg p fs

unfoldable pub is_payable : InkAttribute → Bool
is_payable a = any_arg (λ x. elim x [ AttributeArg.payable ↦ true | _ ↦ false ]) a.args

unfoldable pub is_default : InkAttribute → Bool
is_default a = any_arg (λ x. elim x [ AttributeArg.default ↦ true | _ ↦ false ]) a.args

unfoldable pub is_anonymous : InkAttribute → Bool
is_anonymous a = any_arg (λ x. elim x [ AttributeArg.anonymous ↦ true | _ ↦ false ]) a.args

abbrev is_wildcard : SelectorOrWildcard → Bool
is_wildcard wildcard = true
is_wildcard _ = false

unfoldable pub has_wildcard_selector : InkAttribute → Bool
has_wildcard_selector a =
    any_arg (λ x. elim x [ AttributeArg.selector s ↦ is_wildcard s | _ ↦ false ]) a.args

-- `true` unless `handle_status = false` is given.
unfoldable pub is_handle_status : InkAttribute → Bool
is_handle_status a =
    not (any_arg (λ x. elim x [ AttributeArg.handle_status b ↦ not b | _ ↦ false ]) a.args)

-- The number of errors that the loop of `ensure_no_conflicts` combines.
abbrev pub count_conflicts : (AttributeArg → Bool) → List AttributeFrag → ℕ
count_conflicts is_conflicting [] = 0
count_conflicts is_conflicting (f ∷ fs) =
    (if is_conflicting f.arg then 1 else 0) + count_conflicts is_conflicting fs

unfoldable pub ensure_no_conflicts : (AttributeArg → Bool) → InkAttribute → Result (Unit {0}) Error
ensure_no_conflicts is_conflicting a =
    let n = count_conflicts is_conflicting a.args in
    if nat_beq n 0 then ok tt else err (conflicting n)

-- An attribute of an item, once parsed.
pub data Attribute : Type 0 where
  ink_attr : InkAttribute → Attribute
  other_attr : Bytes → Attribute

-- `partition_map`, the order kept on both sides.
abbrev pub ink_attrs : List Attribute → List InkAttribute
ink_attrs [] = []
ink_attrs (ink_attr a ∷ as') = a ∷ ink_attrs as'
ink_attrs (other_attr _ ∷ as') = ink_attrs as'

abbrev other_attrs : List Attribute → List Bytes
other_attrs [] = []
other_attrs (ink_attr _ ∷ as') = other_attrs as'
other_attrs (other_attr o ∷ as') = o ∷ other_attrs as'

abbrev frags_beq : List AttributeFrag → List AttributeFrag → Bool
frags_beq [] [] = true
frags_beq (f ∷ fs) (g ∷ gs) = frag_beq f g && frags_beq fs gs
frags_beq _ _ = false

abbrev contains_attr : InkAttribute → List InkAttribute → Bool
contains_attr a [] = false
contains_attr a (b ∷ bs) = frags_beq a.args b.args || contains_attr a bs

unfoldable pub ensure_no_duplicate_attrs :
    List InkAttribute → List InkAttribute → Result (Unit {0}) Error
ensure_no_duplicate_attrs [] seen = ok tt
ensure_no_duplicate_attrs (a ∷ as') seen = elim (contains_attr a seen) [
  | true ↦ err duplicate_attribute
  | false ↦ ensure_no_duplicate_attrs as' (a ∷ seen)
]

unfoldable pub partition_attributes : List Attribute → Result (List InkAttribute × List Bytes) Error
partition_attributes attrs =
    ensure_no_duplicate_attrs (ink_attrs attrs) [] >> ok (ink_attrs attrs, other_attrs attrs)

unfoldable pub sanitize_attributes :
    List Attribute
    → AttributeArgKind
    → (AttributeArg → Bool)
    → Result (InkAttribute × List Bytes) Error
sanitize_attributes attrs is_valid_first is_conflicting_attr = do
  parts ← partition_attributes attrs
  normalized ← from_expanded parts.0
  ensure_first is_valid_first normalized
  ensure_no_conflicts is_conflicting_attr normalized
  ok (normalized, parts.1)

abbrev no_attrs : List InkAttribute → Bool
no_attrs [] = true
no_attrs _ = false

unfoldable pub sanitize_optional_attributes :
    List Attribute → (AttributeArg → Bool) → Result (Option InkAttribute × List Bytes) Error
sanitize_optional_attributes attrs is_conflicting_attr = do
  parts ← partition_attributes attrs
  let rest = from_expanded parts.0 >>= λ normalized.
      ensure_no_conflicts is_conflicting_attr normalized >> ok (some normalized, parts.1)
  if no_attrs parts.0 then ok (none, parts.1) else rest
