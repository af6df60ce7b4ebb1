-- ===== src/Ir/Callable/Selectors.antt =====
-- Which callables are hashed to the same selector, crates/ink/ir/src/ir/item_impl/callable.rs.
use ink.Prelude.{
  ◌≡◌, ◌≢◌, refl, sym, ◌∙◌, false, Option, none, some, List, [], ◌∷◌, arith, Bytes, join, is_empty,
  if◌then◌else◌,
}
use ink.Prelude.Separated.{separator, NoColon, join-injective}
use ink.Ir.Selector.{compose, compose_input}
use ink.Ir.Callable.{
  Callable, ImplItem, joined, path_bytes, user_provided_selector, compose_selector,
}

-- The names that are joined, in order.
unfoldable pub parts : Bytes → Option Bytes → Bytes → List Bytes
parts namespace none ident = if is_empty namespace then ident ∷ [] else namespace ∷ ident ∷ []
parts namespace (some path) ident =
    if is_empty namespace then path ∷ ident ∷ [] else namespace ∷ path ∷ ident ∷ []

joined-parts :
    (namespace : Bytes) (path : Option Bytes) (ident : Bytes)
    → joined namespace path ident ≡ join separator (parts namespace path ident)
unfolding joined parts
joined-parts [] none ident = refl
joined-parts (c ∷ cs) none ident = refl
joined-parts [] (some path) ident = refl
joined-parts (c ∷ cs) (some path) ident = refl

cons_injective :
    (ps qs : List Bytes)
    → ps ≢ []
    → qs ≢ []
    → NoColon ps
    → NoColon qs
    → join separator ps ≡ join separator qs
    → ps ≡ qs
cons_injective [] qs full_p full_q hp hq e = absurd (full_p refl)
cons_injective (p ∷ ps) [] full_p full_q hp hq e = absurd (full_q refl)
cons_injective (p ∷ ps) (q ∷ qs) full_p full_q hp hq e = join-injective p q ps qs hp hq e

parts-nonempty : (n : Bytes) (path : Option Bytes) (ident : Bytes) → parts n path ident ≢ []
unfolding parts
parts-nonempty [] none ident e = ground arith
parts-nonempty (c ∷ cs) none ident e = ground arith
parts-nonempty [] (some path) ident e = ground arith
parts-nonempty (c ∷ cs) (some path) ident e = ground arith

-- For names without colons, the bytes that are hashed for two callables are equal only if the same
-- names are joined, in the same order.
pub joined-injective :
    (n m : Bytes) (path via : Option Bytes) (f g : Bytes)
    → NoColon (parts n path f)
    → NoColon (parts m via g)
    → joined n path f ≡ joined m via g
    → parts n path f ≡ parts m via g
joined-injective n m path via f g hn hm e =
    cons_injective _ _ (parts-nonempty n path f) (parts-nonempty m via g) hn hm
      (sym (joined-parts n path f) ∙ e ∙ joined-parts m via g)

module _ (blake2b_256 : Bytes → Bytes) where
  -- A message without a selector of its own, in an implementation of a trait by its name, gets the
  -- selector that the trait's definition composes with the namespace of the `impl` block.
  pub compose_selector-compose :
      (namespace : Option Bytes) (text trait_ident : Bytes) (items : List ImplItem) (c : Callable)
      → user_provided_selector c ≡ none
      → compose_selector blake2b_256
          (record {
            namespace = namespace;
            trait_path =
                some (record {
                  leading_colon = false;
                  token_text = text;
                  segments = trait_ident ∷ [];
                });
            items = items;
          })
          c
        ≡ compose blake2b_256
            (some (record { namespace = namespace; trait_ident = trait_ident }))
            c.ident
  unfolding compose_selector compose compose_input joined path_bytes
  compose_selector-compose namespace text trait_ident items c h = ground arith

-- A message in a namespace and one of a trait of that name have the same selector: nothing in the
-- bytes that are hashed tells a namespace from a trait.
pub joined-namespace_trait :
    (name ident : Bytes) → name ≢ [] → joined name none ident ≡ joined [] (some name) ident
unfolding joined
joined-namespace_trait [] ident full = absurd (full refl)
joined-namespace_trait (c ∷ cs) ident full = refl
