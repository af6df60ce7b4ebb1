-- ===== src/Ir/Tests.antt =====
-- The theorems on the intermediate representation at a concrete contract.
use ink.Prelude.{
  ℕ, ◌≡◌, ◌↔◌, ◌<◌, refl, Bool, true, false, Option, none, some, List, [], ◌∷◌, Bytes, arith,
  length, bytes_eq,
}
use ink.Prelude.HashMap
use ink.Prelude.Distinct.{Distinct}
use ink.Prelude.Result.{ok, err}
use ink.Ir.Selector.{Selector, to_bytes, compose}
use ink.Ir.Attrs.{
  AttributeArg, AttributeArgKind, AttributeFrag, InkAttribute, SelectorOrWildcard,
  wildcard_complement, ensure_no_duplicate_args, kind, kind_beq, frag_beq, contains_frag,
  check_args, from_expanded,
}
use ink.Ir.Attrs.Sanitize.{
  Attribute, sanitize_attributes, partition_attributes, ensure_first, ensure_no_conflicts,
  ensure_no_duplicate_attrs,
}
use ink.Ir.Attrs.Args.{kinds, ensure_no_duplicate_args_iff, Sanitized, sanitize_attributes_ok}
use ink.Ir.Callable.{
  Callable, ItemImpl, ImplItem, compose_selector, joined, user_provided_selector, iter_messages,
  iter_constructors, has_wildcard_selector, has_wildcard_complement_selector,
}
use ink.Ir.Callable.Selectors.{compose_selector-compose}
use ink.Ir.ItemMod.{
  Item, InkItem, Error, impl_blocks, ensure_valid, ensure_storage_struct_quantity,
  ensure_contains_message, ensure_contains_constructor, enter_all, enter_blocks,
  ensure_no_overlapping_selectors, scan_messages, check_usage, scan_constructors, scan_blocks,
  ensure_valid_wildcard_selector_usage,
}
use ink.Ir.ItemMod.Overlap.{
  message_selectors, constructor_selectors, ensure_no_overlapping_selectors_iff,
}
use ink.Ir.ItemMod.Quantity.{all_messages}
use ink.Ir.ItemMod.Wildcard.{
  wildcards, others, WellUsed, ensure_valid_wildcard_selector_usage-WellUsed,
}
use ink.Ir.ItemMod.Split.{block, two_wildcard_constructors, wildcard_and_complement}

-- A selector that is read off the first letter of the name.
abbrev letter_selector : ItemImpl → Callable → Selector
letter_selector i c = first c.ident
  where
    first : Bytes → Selector
    first [] = record { b0 = 0; b1 = 0; b2 = 0; b3 = 0 }
    first (b ∷ _) = record { b0 = b; b1 = 0; b2 = 0; b3 = 0 }

abbrev named : ℕ → Option SelectorOrWildcard → Callable
named letter s = record {
  ident = letter ∷ [];
  selector = s;
  is_payable = false;
  is_default = false;
}

abbrev any_call : Callable
any_call = named b'w' (some SelectorOrWildcard.wildcard)

abbrev handshake : Callable
handshake = named b'h' (some wildcard_complement)

abbrev contract : List Item
contract =
    Item.ink_item InkItem.storage
    ∷ block (
        ImplItem.constructor (named b'n' none)
        ∷ ImplItem.message any_call
        ∷ ImplItem.message handshake
        ∷ [])
    ∷ []

contract_valid : ensure_valid letter_selector contract ≡ ok tt
unfolding ensure_valid ensure_storage_struct_quantity ensure_contains_message
    ensure_contains_constructor ensure_no_overlapping_selectors enter_blocks enter_all
    ensure_valid_wildcard_selector_usage scan_blocks scan_messages check_usage scan_constructors
    iter_messages iter_constructors has_wildcard_selector has_wildcard_complement_selector
    HashMap.get HashMap.insert to_bytes
contract_valid = refl

ensure_no_overlapping_selectors_iff_example :
    (ensure_no_overlapping_selectors letter_selector contract ≡ ok tt) ↔ (
      Distinct (message_selectors letter_selector (impl_blocks contract))
      × Distinct (constructor_selectors letter_selector (impl_blocks contract)))
ensure_no_overlapping_selectors_iff_example =
    ensure_no_overlapping_selectors_iff letter_selector contract

wildcard_usage_valid : ensure_valid_wildcard_selector_usage letter_selector contract ≡ ok tt
unfolding ensure_valid_wildcard_selector_usage scan_blocks scan_messages check_usage
    scan_constructors iter_messages iter_constructors has_wildcard_selector
    has_wildcard_complement_selector
wildcard_usage_valid = refl

few_messages : length (others (all_messages letter_selector (impl_blocks contract))) < 4294967296
unfolding iter_messages has_wildcard_selector
few_messages = omega arith

ensure_valid_wildcard_selector_usage-WellUsed_example :
    WellUsed
      (wildcards (all_messages letter_selector (impl_blocks contract)))
      (others (all_messages letter_selector (impl_blocks contract)))
ensure_valid_wildcard_selector_usage-WellUsed_example =
    ensure_valid_wildcard_selector_usage-WellUsed letter_selector contract few_messages
      wildcard_usage_valid

any_call-wildcard : has_wildcard_selector any_call ≡ true
unfolding has_wildcard_selector
any_call-wildcard = refl

handshake-other : has_wildcard_selector handshake ≡ false
unfolding has_wildcard_selector
handshake-other = refl

handshake-complement : has_wildcard_complement_selector handshake ≡ true
unfolding has_wildcard_complement_selector
handshake-complement = refl

two_wildcard_constructors_example :
    (ensure_valid_wildcard_selector_usage letter_selector
        (block (ImplItem.constructor any_call ∷ ImplItem.constructor any_call ∷ []) ∷ [])
      ≡ err Error.overlapping_wildcard_constructors)
    × (ensure_valid_wildcard_selector_usage letter_selector (
          block (ImplItem.constructor any_call ∷ [])
          ∷ block (ImplItem.constructor any_call ∷ [])
          ∷ [])
        ≡ ok tt)
two_wildcard_constructors_example =
    two_wildcard_constructors letter_selector any_call any_call any_call-wildcard any_call-wildcard

wildcard_and_complement_example :
    (ensure_valid_wildcard_selector_usage letter_selector
        (block (ImplItem.message any_call ∷ ImplItem.message handshake ∷ []) ∷ [])
      ≡ ok tt)
    × (ensure_valid_wildcard_selector_usage letter_selector
          (block (ImplItem.message any_call ∷ []) ∷ block (ImplItem.message handshake ∷ []) ∷ [])
        ≡ err Error.missing_other_message)
wildcard_and_complement_example =
    wildcard_and_complement letter_selector any_call handshake any_call-wildcard handshake-other
      handshake-complement

same_text : joined [] (some (b'A' ∷ [])) (b'f' ∷ []) ≡ joined (b'A' ∷ []) none (b'f' ∷ [])
unfolding joined
same_text = refl

message_call : user_provided_selector (named b'f' none) ≡ none
unfolding user_provided_selector
message_call = refl

compose_selector-compose_example :
    compose_selector
      (λ x. x)
      (record {
        namespace = none;
        trait_path =
            some (record {
              leading_colon = false;
              token_text = [];
              segments = (b'A' ∷ b'b' ∷ []) ∷ [];
            });
        items = [];
      })
      (named b'f' none)
    ≡ compose
        (λ x. x)
        (some (record { namespace = none; trait_ident = b'A' ∷ b'b' ∷ [] }))
        (b'f' ∷ [])
compose_selector-compose_example =
    compose_selector-compose (λ x. x) none [] (b'A' ∷ b'b' ∷ []) [] (named b'f' none) message_call

-- `#[ink(message, payable)]`
abbrev payable_message : List AttributeFrag
payable_message =
    record { ast = b'm' ∷ []; arg = AttributeArg.message }
    ∷ record { ast = b'p' ∷ []; arg = AttributeArg.payable }
    ∷ []

ensure_no_duplicate_args_iff_example :
    (ensure_no_duplicate_args payable_message ≡ ok tt) ↔ Distinct (kinds payable_message)
ensure_no_duplicate_args_iff_example = ensure_no_duplicate_args_iff payable_message

abbrev payable_attribute : InkAttribute
payable_attribute = record { args = payable_message }

abbrev nothing_conflicts : AttributeArg → Bool
nothing_conflicts arg = false

payable_accepted :
    sanitize_attributes
      (Attribute.ink_attr payable_attribute ∷ [])
      AttributeArgKind.message
      nothing_conflicts
    ≡ ok (payable_attribute, [])
unfolding sanitize_attributes partition_attributes ensure_no_duplicate_attrs from_expanded
    ensure_no_duplicate_args check_args contains_frag frag_beq kind_beq kind ensure_first
    ensure_no_conflicts
payable_accepted = refl

sanitize_attributes_ok_example :
    Sanitized
      (Attribute.ink_attr payable_attribute ∷ [])
      AttributeArgKind.message
      nothing_conflicts
      payable_attribute
sanitize_attributes_ok_example =
    sanitize_attributes_ok (Attribute.ink_attr payable_attribute ∷ []) AttributeArgKind.message
      nothing_conflicts payable_attribute [] payable_accepted
