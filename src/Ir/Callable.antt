-- ===== src/Ir/Callable.antt =====
-- Messages and constructors and their selectors, crates/ink/ir/src/ir/item_impl: callable.rs, the
-- `Callable` implementations of message.rs and constructor.rs, and iter.rs.
pub mod Selectors
use ink.Prelude.{
  ℕ, Bool, true, false, not, ◌||◌, ◌&&◌, leb, nat_beq, Option, none, some, List, [], ◌∷◌, Outcome,
  ret, panic, Bytes, join, is_empty, if◌then◌else◌,
}
use ink.Ir.Selector.{Selector, compute, namespace_bytes}
use ink.Prelude.Separated.{separator}
use ink.Ir.Attrs.{
  SelectorOrWildcard, wildcard, user_provided, wildcard_complement, selector_or_wildcard_beq,
}

-- What the checks read of a `Message` or a `Constructor`.
pub record Callable : Type 0 where
  pub ident : Bytes
  pub selector : Option SelectorOrWildcard
  pub is_payable : Bool
  pub is_default : Bool

unfoldable pub user_provided_selector : Callable → Option Selector
user_provided_selector c = elim c.selector [
  | none ↦ none
  | some s ↦ elim s [ user_provided selector ↦ some selector | _ ↦ none ]
]

unfoldable pub has_wildcard_selector : Callable → Bool
has_wildcard_selector c = elim c.selector [
  | none ↦ false
  | some s ↦ elim s [ wildcard ↦ true | _ ↦ false ]
]

unfoldable pub has_wildcard_complement_selector : Callable → Bool
has_wildcard_complement_selector c = elim c.selector [
  | none ↦ false
  | some s ↦ selector_or_wildcard_beq s wildcard_complement
]

-- A `syn::Path`: whether it starts with `::`, its tokens as text, and its segments' identifiers.
pub record TraitPath : Type 0 where
  pub leading_colon : Bool
  pub token_text : Bytes
  pub segments : List Bytes

pub data ImplItem : Type 0 where
  message constructor : Callable → ImplItem
  other : ImplItem

pub record ItemImpl : Type 0 where
  pub namespace : Option Bytes
  pub trait_path : Option TraitPath
  pub items : List ImplItem

-- `char::is_whitespace`, on ASCII
abbrev is_whitespace : ℕ → Bool
is_whitespace c = nat_beq c b' ' || leb 9 c && leb c 13

abbrev retain : (ℕ → Bool) → Bytes → Bytes
retain p [] = []
retain p (c ∷ cs) = let rest = retain p cs in if p c then c ∷ rest else rest

abbrev last : List Bytes → Outcome Bytes
last [] = panic
last (s ∷ []) = ret s
last (_ ∷ s ∷ rest) = last (s ∷ rest)

unfoldable pub path_bytes : TraitPath → Outcome Bytes
path_bytes path =
    if path.leading_colon
    then ret (retain (λ c. not (is_whitespace c)) path.token_text)
    else last path.segments

-- The bytes that are hashed for a callable with no selector of its own.
unfoldable pub joined : Bytes → Option Bytes → Bytes → Bytes
joined namespace none ident =
    if is_empty namespace then ident else join separator (namespace ∷ ident ∷ [])
joined namespace (some path) ident =
    if is_empty namespace
    then join separator (path ∷ ident ∷ [])
    else join separator (namespace ∷ path ∷ ident ∷ [])

abbrev trait_bytes : Option TraitPath → Outcome (Option Bytes)
trait_bytes none = ret none
trait_bytes (some path) = elim (path_bytes path) [ panic ↦ panic | ret b ↦ ret (some b) ]

module _ (blake2b_256 : Bytes → Bytes) where
  unfoldable pub compose_selector : ItemImpl → Callable → Outcome Selector
  unfolding user_provided_selector joined compute
  compose_selector item_impl callable = elim (user_provided_selector callable) [
    | some selector ↦ ret selector
    | none ↦ elim (trait_bytes item_impl.trait_path) [
      | panic ↦ panic
      | ret path ↦
          compute blake2b_256 (joined (namespace_bytes item_impl.namespace) path callable.ident)
    ]
  ]

-- `CallableWithSelector`
pub record CallableWithSelector : Type 0 where
  pub composed_selector : Selector
  pub callable : Callable

abbrev pub message_items : List ImplItem → List Callable
message_items [] = []
message_items (message c ∷ items) = c ∷ message_items items
message_items (constructor _ ∷ items) = message_items items
message_items (other ∷ items) = message_items items

abbrev pub constructor_items : List ImplItem → List Callable
constructor_items [] = []
constructor_items (constructor c ∷ items) = c ∷ constructor_items items
constructor_items (message _ ∷ items) = constructor_items items
constructor_items (other ∷ items) = constructor_items items

module _ (selector_of : ItemImpl → Callable → Selector) where
  abbrev with_selectors : ItemImpl → List Callable → List CallableWithSelector
  with_selectors i [] = []
  with_selectors i (c ∷ cs) =
      record { composed_selector = selector_of i c; callable = c } ∷ with_selectors i cs

  -- `IterMessages` and `IterConstructors`
  unfoldable pub iter_messages : ItemImpl → List CallableWithSelector
  iter_messages i = with_selectors i (message_items i.items)

  unfoldable pub iter_constructors : ItemImpl → List CallableWithSelector
  iter_constructors i = with_selectors i (constructor_items i.items)
