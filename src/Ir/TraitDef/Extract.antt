-- ===== src/Ir/TraitDef/Extract.antt =====
-- The selectors of a trait definition, crates/ink/ir/src/ir/trait_def/item: `extract_selectors` of
-- mod.rs, the iterators of iter.rs, and the accessors of trait_item.rs.
use ink.Prelude.{
  Bool, true, false, Option, none, some, List, [], ◌∷◌, Bytes, bytes_eq, is_empty, Outcome, ret,
  panic, expect, ◌>>=◌, ◌>>◌, if◌then◌else◌,
}
use ink.Prelude.HashMap
use ink.Prelude.HashMap.{HashMap}
use ink.Prelude.Result.{Result, ok, err}
use ink.Ir.Selector.{Selector, TraitPrefix, to_bytes, compose}
use ink.Ir.Attrs.{AttributeArg, InkAttribute, SelectorOrWildcard}
use ink.Ir.Attrs.Sanitize.{Attribute, first_arg, sanitize_optional_attributes, selector}
use ink.Ir.TraitDef.{
  TraitItemFn, TraitItem, ItemTrait, Error, fn_item, duplicate_selector, empty_definition,
  first_ink_attribute, extract_attributes, analyse,
}

-- `InkTraitMessage::ink_attrs`, which panics on what `extract_attributes` refuses.
unfoldable pub ink_attrs : TraitItemFn → Outcome InkAttribute
unfolding extract_attributes
ink_attrs f = elim (extract_attributes f.attrs) [ ok parts ↦ ret parts.0 | err _ ↦ panic ]

-- `mutates`
unfoldable pub mutates : TraitItemFn → Outcome Bool
mutates f = elim f.receiver [ none ↦ panic | some r ↦ ret r.is_mut ]

abbrev first_flag : Option InkAttribute → Option AttributeArg
first_flag none = none
first_flag (some a) = first_arg a.args

-- A round of the loop of `IterInkTraitItemsRaw::next`: a function whose first argument is `message`
-- is yielded, and one without an ink! attribute is a panic.
unfoldable pub next_message : TraitItem → Outcome (Option TraitItemFn)
next_message (fn_item f) = elim (first_flag (first_ink_attribute f.attrs)) [
  | none ↦ panic
  | some arg ↦ elim arg [ AttributeArg.message ↦ ret (some f) | _ ↦ ret none ]
]
next_message _ = ret none

-- `InkItemTrait`
pub record InkItemTrait : Type 0 where
  pub item : ItemTrait
  pub message_selectors : HashMap Bytes Selector

-- The closure of `extract_selectors`.
abbrev conflicts_trait : AttributeArg → Bool
conflicts_trait (AttributeArg.namespace _) = false
conflicts_trait _ = true

unfoldable pub check_trait_attributes : List Attribute → Outcome (Unit {0})
check_trait_attributes attrs = elim (sanitize_optional_attributes attrs conflicts_trait) [
  | ok _ ↦ ret tt
  | err _ ↦ panic
]

-- The selectors seen, by their bytes, with the function's name.
abbrev pub Seen : Type 0
Seen = HashMap Bytes Bytes

-- What `new` does with the selectors.
abbrev pub finish : ItemTrait → Result (HashMap Bytes Selector) Error → Result InkItemTrait Error
finish t (err e) = err e
finish t (ok selectors) =
    if is_empty selectors
    then err empty_definition
    else ok (record { item = t; message_selectors = selectors })

module _ (blake2b_256 : Bytes → Bytes) where
  abbrev pub compose_unless : TraitPrefix → Bytes → Option SelectorOrWildcard → Outcome Selector
  compose_unless prefix ident (some (SelectorOrWildcard.user_provided s)) = ret s
  compose_unless prefix ident (some SelectorOrWildcard.wildcard) =
      compose blake2b_256 (some prefix) ident
  compose_unless prefix ident none = compose blake2b_256 (some prefix) ident

  -- The selector that the loop of `extract_selectors` finds for a message.
  unfoldable pub message_selector : TraitPrefix → TraitItemFn → Outcome Selector
  unfolding ink_attrs
  message_selector prefix f = do attrs ← ink_attrs f; compose_unless prefix f.ident (selector attrs)

  -- The loop of `extract_selectors`. Two messages of one name are a panic.
  unfoldable pub extract_loop :
      TraitPrefix
      → List TraitItem
      → Seen
      → HashMap Bytes Selector
      → Outcome (Result (HashMap Bytes Selector) Error)
  unfolding message_selector next_message
  extract_loop prefix [] seen selectors = ret (ok selectors)
  extract_loop prefix (item ∷ items) seen selectors = next_message item >>= λ yielded.
      elim yielded [
        | none ↦ extract_loop prefix items seen selectors
        | some f ↦ message_selector prefix f >>= λ s. elim (HashMap.get (to_bytes s) seen) [
          | some _ ↦ ret (err duplicate_selector)
          | none ↦ elim (HashMap.get f.ident selectors) [
            | some _ ↦ panic
            | none ↦
                extract_loop prefix items (HashMap.insert (to_bytes s) f.ident seen)
                  (HashMap.insert f.ident s selectors)
          ]
        ]
      ]

  unfoldable pub extract_selectors :
      Option Bytes → ItemTrait → Outcome (Result (HashMap Bytes Selector) Error)
  unfolding check_trait_attributes
  extract_selectors namespace t = do
    check_trait_attributes t.attrs
    extract_loop (record { namespace = namespace; trait_ident = t.ident }) t.items [] []

  -- `InkItemTrait::new`
  unfoldable pub new : Option Bytes → ItemTrait → Outcome (Result InkItemTrait Error)
  unfolding extract_selectors
  new namespace t = elim (analyse t) [
    | err e ↦ ret (err e)
    | ok _ ↦ extract_selectors namespace t >>= λ r. ret (finish t r)
  ]

-- `IterInkTraitItems`: each message with its selector in the map, and a panic at one that is not
-- there.
unfoldable pub iter_items :
    List TraitItem → HashMap Bytes Selector → Outcome (List (TraitItemFn × Selector))
unfolding next_message
iter_items [] selectors = ret []
iter_items (item ∷ items) selectors = do
  yielded ← next_message item
  let rest = iter_items items selectors
  elim yielded [
    | none ↦ rest
    | some f ↦ do s ← expect (HashMap.get f.ident selectors); later ← rest; ret ((f, s) ∷ later)
  ]
