-- ===== src/Ir/TraitDef/Tests.antt =====
-- The theorems on trait definitions at a trait with two messages, one with a selector of its own.
use ink.Prelude.{ℕ, ◌≡◌, refl, true, false, none, some, List, [], ◌∷◌, Bytes, ret, arith}
use ink.Prelude.HashMap
use ink.Prelude.Result.{Result, ok}
use ink.Ir.Selector.{Selector, to_bytes, compute, compose, compose_input}
use ink.Ir.Attrs
use ink.Ir.Attrs.{
  AttributeArg, SelectorOrWildcard, ensure_no_duplicate_args, kind, kind_beq, frag_beq,
  contains_frag, check_args, from_expanded,
}
use ink.Ir.Attrs.Sanitize.{
  Attribute, sanitize_attributes, sanitize_optional_attributes, partition_attributes, ensure_first,
  ensure_no_conflicts, ensure_no_duplicate_attrs, selector,
}
use ink.Ir.TraitDef.{
  TraitItemFn, ItemTrait, Error, fn_item, extract_attributes, analyse_trait_message,
  analyse_trait_fn, analyse_items, analyse_properties, analyse,
}
use ink.Ir.TraitDef.Extract.{
  InkItemTrait, next_message, ink_attrs, message_selector, check_trait_attributes, extract_loop,
  extract_selectors, new,
}
use ink.Ir.TraitDef.Accepted.{Plain, Accepted, new-Accepted}
use ink.Ir.TraitDef.Total.{IsLong, new_total}

abbrev attrs_of : List AttributeArg → List Attribute
attrs_of args = Attribute.ink_attr (record { args = frags 0 args }) ∷ []
  where
    frags : ℕ → List AttributeArg → List Attrs.AttributeFrag
    frags n [] = []
    frags n (a ∷ as') = record { ast = n ∷ []; arg = a } ∷ frags (ℕ.suc n) as'

abbrev message_fn : ℕ → List AttributeArg → TraitItemFn
message_fn letter args = record {
  ident = letter ∷ [];
  has_default = false;
  is_const = false;
  is_async = false;
  is_unsafe = false;
  has_abi = false;
  is_variadic = false;
  generic_params = 0;
  receiver = some (record { is_reference = true; is_mut = true });
  attrs = attrs_of args;
}

abbrev given : Selector
given = record { b0 = 1; b1 = 2; b2 = 3; b3 = 4 }

abbrev flip_trait : ItemTrait
flip_trait = record {
  ident = b'F' ∷ [];
  has_ink_identifier = false;
  is_unsafe = false;
  is_auto = false;
  generic_params = 0;
  is_public = true;
  supertraits = 0;
  attrs = [];
  items =
      fn_item (message_fn b'f' (AttributeArg.message ∷ []))
      ∷ fn_item (
          message_fn b'g' (
            AttributeArg.message
            ∷ AttributeArg.selector (SelectorOrWildcard.user_provided given)
            ∷ []))
      ∷ [];
}

-- Zeros in front of the first bytes of the input.
abbrev short_hash : Bytes → Bytes
short_hash input = 0 ∷ 0 ∷ 0 ∷ 0 ∷ input

abbrev composed : Selector
composed = record { b0 = 0; b1 = 0; b2 = 0; b3 = 0 }

abbrev flip_definition : InkItemTrait
flip_definition = record {
  item = flip_trait;
  message_selectors = (b'f' ∷ [], composed) ∷ (b'g' ∷ [], given) ∷ [];
}

flip_accepted : new short_hash none flip_trait ≡ ret (ok flip_definition)
unfolding new analyse analyse_properties analyse_items analyse_trait_fn analyse_trait_message
    extract_attributes extract_selectors check_trait_attributes extract_loop next_message ink_attrs
    message_selector compose compose_input compute to_bytes sanitize_attributes
    sanitize_optional_attributes partition_attributes ensure_no_duplicate_attrs from_expanded
    ensure_no_duplicate_args check_args contains_frag frag_beq kind_beq kind ensure_first
    ensure_no_conflicts selector HashMap.get HashMap.insert
flip_accepted = refl

new-Accepted_example : Plain flip_trait × Accepted short_hash none flip_trait flip_definition
new-Accepted_example = new-Accepted short_hash none flip_trait flip_definition flip_accepted

short_hash-IsLong : IsLong short_hash
short_hash-IsLong input = omega arith

no_attributes : check_trait_attributes flip_trait.attrs ≡ ret tt
unfolding check_trait_attributes sanitize_optional_attributes partition_attributes
    ensure_no_duplicate_attrs from_expanded
no_attributes = refl

new_total_example : (r : Result InkItemTrait Error) × (new short_hash none flip_trait ≡ ret r)
new_total_example =
    new_total short_hash none flip_trait short_hash-IsLong (((λ e. ground arith), tt), (tt, tt))
      no_attributes
