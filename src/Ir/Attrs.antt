-- ===== src/Ir/Attrs.antt =====
-- The arguments of ink! attributes, crates/ink/ir/src/ir/attrs.rs, from the point where they have
-- been parsed. A fragment's tokens are bytes.
pub mod Sanitize
pub mod Args
use ink.Prelude.{
  ℕ, ◌≡◌, Bool, true, false, not, ◌&&◌, ◌||◌, Option, none, some, List, [], ◌∷◌, ◌++◌, Bytes,
  bytes_beq, nat_beq, if◌then◌else◌,
}
use ink.Prelude.Result.{Result, ok, err, ◌>>=◌, ◌>>◌}
use ink.Ir.Selector.{Selector, to_bytes}

-- `IIP2_WILDCARD_COMPLEMENT_SELECTOR` of crates/prelude/src/lib.rs
abbrev pub wildcard_complement_selector : Selector
wildcard_complement_selector = record { b0 = 0x9b; b1 = 0xae; b2 = 0x9d; b3 = 0x5e }

pub data SelectorOrWildcard : Type 0 where
  wildcard : SelectorOrWildcard
  user_provided : Selector → SelectorOrWildcard

abbrev pub wildcard_complement : SelectorOrWildcard
wildcard_complement = user_provided wildcard_complement_selector

pub data AttributeArgKind : Type 0 where
  storage event anonymous message constructor payable default selector extension : AttributeArgKind
  namespace implementation handle_status : AttributeArgKind

pub data AttributeArg : Type 0 where
  storage event anonymous message constructor payable default : AttributeArg
  selector : SelectorOrWildcard → AttributeArg
  namespace : Bytes → AttributeArg
  implementation : AttributeArg
  extension : ℕ → AttributeArg
  handle_status : Bool → AttributeArg

-- `AttributeArg::kind`
unfoldable pub kind : AttributeArg → AttributeArgKind
kind AttributeArg.storage = AttributeArgKind.storage
kind AttributeArg.event = AttributeArgKind.event
kind AttributeArg.anonymous = AttributeArgKind.anonymous
kind AttributeArg.message = AttributeArgKind.message
kind AttributeArg.constructor = AttributeArgKind.constructor
kind AttributeArg.payable = AttributeArgKind.payable
kind (AttributeArg.selector _) = AttributeArgKind.selector
kind (AttributeArg.extension _) = AttributeArgKind.extension
kind (AttributeArg.namespace _) = AttributeArgKind.namespace
kind AttributeArg.implementation = AttributeArgKind.implementation
kind (AttributeArg.handle_status _) = AttributeArgKind.handle_status
kind AttributeArg.default = AttributeArgKind.default

pub record AttributeFrag : Type 0 where
  pub ast : Bytes
  pub arg : AttributeArg

-- The derived equalities.
abbrev kind_code : AttributeArgKind → ℕ
kind_code AttributeArgKind.storage = 0
kind_code AttributeArgKind.event = 1
kind_code AttributeArgKind.anonymous = 2
kind_code AttributeArgKind.message = 3
kind_code AttributeArgKind.constructor = 4
kind_code AttributeArgKind.payable = 5
kind_code AttributeArgKind.default = 6
kind_code AttributeArgKind.selector = 7
kind_code AttributeArgKind.extension = 8
kind_code AttributeArgKind.namespace = 9
kind_code AttributeArgKind.implementation = 10
kind_code AttributeArgKind.handle_status = 11

unfoldable pub kind_beq : AttributeArgKind → AttributeArgKind → Bool
kind_beq k l = nat_beq (kind_code k) (kind_code l)

abbrev pub selector_or_wildcard_beq : SelectorOrWildcard → SelectorOrWildcard → Bool
selector_or_wildcard_beq wildcard wildcard = true
selector_or_wildcard_beq (user_provided s) (user_provided t) =
    nat_beq s.b0 t.b0 && nat_beq s.b1 t.b1 && nat_beq s.b2 t.b2 && nat_beq s.b3 t.b3
selector_or_wildcard_beq _ _ = false

abbrev bool_beq : Bool → Bool → Bool
bool_beq true b = b
bool_beq false b = not b

unfoldable pub payload_beq : AttributeArg → AttributeArg → Bool
payload_beq (AttributeArg.selector s) (AttributeArg.selector t) = selector_or_wildcard_beq s t
payload_beq (AttributeArg.namespace s) (AttributeArg.namespace t) = bytes_beq s t
payload_beq (AttributeArg.extension s) (AttributeArg.extension t) = nat_beq s t
payload_beq (AttributeArg.handle_status s) (AttributeArg.handle_status t) = bool_beq s t
payload_beq _ _ = true

unfoldable pub frag_beq : AttributeFrag → AttributeFrag → Bool
frag_beq f g =
    bytes_beq f.ast g.ast && kind_beq (kind f.arg) (kind g.arg) && payload_beq f.arg g.arg

pub data Error : Type 0 where
  duplicate_args equal_kinds empty_expanded unexpected_first duplicate_attribute : Error
  -- The number of conflicting arguments, whose errors are combined.
  conflicting : ℕ → Error

pub record InkAttribute : Type 0 where
  pub args : List AttributeFrag

unfoldable pub contains_frag : AttributeFrag → List AttributeFrag → Bool
contains_frag f [] = false
contains_frag f (g ∷ gs) = frag_beq f g || contains_frag f gs

abbrev pub contains_kind : AttributeArgKind → List AttributeArgKind → Bool
contains_kind k [] = false
contains_kind k (l ∷ ls) = kind_beq k l || contains_kind k ls

-- The loop of `ensure_no_duplicate_args` over `seen` and `seen2`.
unfoldable pub check_args :
    List AttributeFrag → List AttributeFrag → List AttributeArgKind → Result (Unit {0}) Error
check_args [] seen seen2 = ok tt
check_args (arg ∷ args) seen seen2 = elim (contains_frag arg seen) [
  | true ↦ err duplicate_args
  | false ↦ elim (contains_kind (kind arg.arg) seen2) [
    | true ↦ err equal_kinds
    | false ↦ check_args args (arg ∷ seen) (kind arg.arg ∷ seen2)
  ]
]

unfoldable pub ensure_no_duplicate_args : List AttributeFrag → Result (Unit {0}) Error
unfolding check_args
ensure_no_duplicate_args args = check_args args [] []

abbrev pub flat_args : List InkAttribute → List AttributeFrag
flat_args [] = []
flat_args (a ∷ as') = a.args ++ flat_args as'

unfoldable pub from_expanded : List InkAttribute → Result InkAttribute Error
unfolding ensure_no_duplicate_args
from_expanded attrs = elim (flat_args attrs) [
  | [] ↦ err empty_expanded
  | arg ∷ args ↦ ensure_no_duplicate_args (arg ∷ args) >> ok (record { args = arg ∷ args })
]
