-- ===== src/Ir/TraitDef/Total.antt =====
-- The panics of crates/ink/ir/src/ir/trait_def/item, and why they are not met.
use ink.Prelude.{
  ◌≤◌, ◌≡◌, refl, Option, none, some, List, [], ◌∷◌, Bytes, bytes_eq, length, ret, arith,
  Option-cases, inl, inr,
}
use ink.Prelude.HashMap
use ink.Prelude.HashMap.{HashMap}
use ink.Prelude.Keys.{Keys, insert-Keys, empty-Keys}
use ink.Prelude.Distinct.{Distinct, Fresh, Fresh-nil_iff}
use ink.Prelude.Result.{Result, ok, err, >>=-eq-ok, Result-cases}
use ink.Ir.Selector.{Selector, TraitPrefix, to_bytes, compute, compose, compose_input}
use ink.Ir.Attrs.{SelectorOrWildcard}
use ink.Ir.Attrs.Sanitize.{selector}
use ink.Ir.TraitDef.{
  TraitItemFn, TraitItem, ItemTrait, Error, fn_item, const_item, macro_item, type_item,
  verbatim_item, unknown_item, analyse_trait_fn, analyse_trait_message, analyse_trait_constructor,
  extract_attributes, analyse_items, analyse,
}
use ink.Ir.TraitDef.Extract.{
  InkItemTrait, ink_attrs, message_selector, extract_loop, extract_selectors, compose_unless,
  check_trait_attributes, finish, new, Seen,
}
use ink.Ir.TraitDef.Accepted.{analyse_trait_fn_ok, analyse_ok}

-- The names of the functions of a trait.
abbrev pub fn_idents : List TraitItem → List Bytes
fn_idents [] = []
fn_idents (fn_item f ∷ is) = f.ident ∷ fn_idents is
fn_idents (_ ∷ is) = fn_idents is

-- An output of the hash has at least four bytes.
abbrev pub IsLong : (Bytes → Bytes) → Type 0
IsLong hash = (input : Bytes) → 4 ≤ length (hash input)

first_four_total :
    (hash : Bytes → Bytes) (input output : Bytes)
    → hash input ≡ output
    → 4 ≤ length output
    → (s : Selector) × (compute hash input ≡ ret s)
unfolding compute
first_four_total hash input [] e h = absurd (omega arith)
first_four_total hash input (a ∷ []) e h = absurd (omega arith)
first_four_total hash input (a ∷ b ∷ []) e h = absurd (omega arith)
first_four_total hash input (a ∷ b ∷ c ∷ []) e h = absurd (omega arith)
first_four_total hash input (a ∷ b ∷ c ∷ d ∷ rest) e h =
    (record { b0 = a; b1 = b; b2 = c; b3 = d }, rw e refl)

module _ (hash : Bytes → Bytes) (long : IsLong hash) (prefix : TraitPrefix) where
  compose_total : (ident : Bytes) → (s : Selector) × (compose hash (some prefix) ident ≡ ret s)
  unfolding compose
  compose_total ident =
      first_four_total hash (compose_input (some prefix) ident) _ refl
        (long (compose_input (some prefix) ident))

  compose_unless_total :
      (ident : Bytes) (given : Option SelectorOrWildcard)
      → (s : Selector) × (compose_unless hash prefix ident given ≡ ret s)
  compose_unless_total ident none = compose_total ident
  compose_unless_total ident (some SelectorOrWildcard.wildcard) = compose_total ident
  compose_unless_total ident (some (SelectorOrWildcard.user_provided s)) = (s, refl)

  message_selector_total :
      (f : TraitItemFn)
      → analyse_trait_fn f ≡ ok tt
      → (s : Selector) × (message_selector hash prefix f ≡ ret s)
  unfolding message_selector ink_attrs analyse_trait_fn analyse_trait_message
      analyse_trait_constructor
  message_selector_total f h = elim (Result-cases (extract_attributes f.attrs)) [
    | inl (parts, e) ↦
        let (s, named) = compose_unless_total f.ident (selector parts.0) in (s, ground arith)
    | inr (x, e) ↦ absurd (ground arith)
  ]

  -- Where the names are new and different, the loop does not panic.
  extract_loop_total :
      (is : List TraitItem) (js : List Bytes) (seen : Seen) (start : HashMap Bytes Selector)
      → Keys start js
      → analyse_items is ≡ ok tt
      → Fresh js (fn_idents is)
      → (r : Result (HashMap Bytes Selector) Error) × (extract_loop hash prefix is seen start
          ≡ ret r)
  unfolding extract_loop analyse_items
  extract_loop_total [] js seen start known good fresh = (ok start, refl)
  extract_loop_total (const_item ∷ is) js seen start known good fresh = absurd (ground arith)
  extract_loop_total (macro_item ∷ is) js seen start known good fresh = absurd (ground arith)
  extract_loop_total (type_item ∷ is) js seen start known good fresh = absurd (ground arith)
  extract_loop_total (verbatim_item ∷ is) js seen start known good fresh = absurd (ground arith)
  extract_loop_total (unknown_item ∷ is) js seen start known good fresh = absurd (ground arith)
  extract_loop_total (fn_item f ∷ is) js seen start known good fresh =
      let (t, here, later) = >>=-eq-ok (analyse_trait_fn f) _ good in
      let yields = (analyse_trait_fn_ok f here).0 in
      let (s, named) = message_selector_total f here in
      let k = to_bytes s in
      elim (Option-cases (HashMap.get k seen)) [
        | inr (v, used) ↦ (err Error.duplicate_selector, ground arith)
        | inl free ↦
            let (r, ran) =
              extract_loop_total is (f.ident ∷ js) (HashMap.insert k f.ident seen)
                (HashMap.insert f.ident s start) (insert-Keys start js f.ident s known) later
                fresh.1 in
            (r, ground (arith, known f.ident))
      ]

-- `new` does not panic on a trait whose functions have different names and whose own attributes are
-- those of a trait, with a hash of at least four bytes.
pub new_total :
    (hash : Bytes → Bytes) (namespace : Option Bytes) (t : ItemTrait)
    → IsLong hash
    → Distinct (fn_idents t.items)
    → check_trait_attributes t.attrs ≡ ret tt
    → (r : Result InkItemTrait Error) × (new hash namespace t ≡ ret r)
unfolding new extract_selectors
new_total hash namespace t long distinct attributes = elim (Result-cases (analyse t)) [
  | inr (e, refused) ↦ (err e, ground arith)
  | inl (u, passed) ↦
      let prefix : TraitPrefix = record { namespace = namespace; trait_ident = t.ident } in
      let (r, ran) =
        extract_loop_total hash long prefix t.items [] [] [] empty-Keys (analyse_ok t passed).1
          ((Fresh-nil_iff (fn_idents t.items)).1 distinct) in
      (finish t r, ground arith)
]
