-- ===== src/Ir/TraitDef/Accepted.antt =====
-- The trait definitions that crates/ink/ir/src/ir/trait_def/item/mod.rs accepts.
use ink.Prelude.{
  ◌≡◌, ◌≢◌, refl, sym, ap, ◌∙◌, true, false, Option, none, some, List, [], ◌∷◌, Bytes, bytes_eq,
  ret, arith, Outcome-cases, inl, inr, beq_refl, beq_false_of_ne,
}
use ink.Prelude.HashMap
use ink.Prelude.HashMap.{HashMap}
use ink.Prelude.Keys.{Keys, insert-Keys, empty-Keys}
use ink.Prelude.Distinct.{NotIn, Distinct, Fresh, Fresh-nil_iff, Fresh-cons_NotIn}
use ink.Prelude.Result.{ok, >>=-eq-ok, Result-cases}
use ink.Ir.Selector.{Selector, TraitPrefix, to_bytes}
use ink.Ir.TraitDef.{
  TraitReceiver, TraitItemFn, TraitItem, ItemTrait, fn_item, const_item, macro_item, type_item,
  verbatim_item, unknown_item, analyse_properties, analyse_trait_message, analyse_trait_constructor,
  analyse_trait_fn, analyse_items, analyse,
}
use ink.Ir.TraitDef.Extract.{
  InkItemTrait, next_message, message_selector, extract_loop, extract_selectors, finish, new,
  iter_items, Seen,
}

-- A message and its selector.
abbrev pub Message : Type 0
Message = TraitItemFn × Selector

abbrev pub items_of : List Message → List TraitItem
items_of [] = []
items_of ((f, s) ∷ ms) = fn_item f ∷ items_of ms

abbrev pub idents : List Message → List Bytes
idents [] = []
idents ((f, s) ∷ ms) = f.ident ∷ idents ms

abbrev pub selectors : List Message → List Bytes
selectors [] = []
selectors ((f, s) ∷ ms) = to_bytes s ∷ selectors ms

-- `&self` or `&mut self`
abbrev pub TakesReference : Option TraitReceiver → Type 0
TakesReference none = ⊥
TakesReference (some r) = r.is_reference ≡ true

abbrev pub AllTakeReference : List Message → Type 0
AllTakeReference [] = Unit
AllTakeReference ((f, s) ∷ ms) = TakesReference f.receiver × AllTakeReference ms

-- Each selector is the one that `message_selector` finds.
abbrev pub Chosen : (Bytes → Bytes) → TraitPrefix → List Message → Type 0
Chosen hash prefix [] = Unit
Chosen hash prefix ((f, s) ∷ ms) = (message_selector hash prefix f ≡ ret s) × Chosen hash prefix ms

pub analyse_trait_fn_ok :
    (f : TraitItemFn)
    → analyse_trait_fn f ≡ ok tt
    → (next_message (fn_item f) ≡ ret (some f)) × TakesReference f.receiver
unfolding analyse_trait_fn analyse_trait_message analyse_trait_constructor next_message
analyse_trait_fn_ok f h = (ground arith, ground arith)

-- What the loop adds to its variables.
record Extracted (hash : Bytes → Bytes) (prefix : TraitPrefix) (is : List TraitItem)
    (ks js : List Bytes) (start out : HashMap Bytes Selector) : Type 0 where
  messages : List Message
  from_items : items_of messages ≡ is
  references : AllTakeReference messages
  chosen : Chosen hash prefix messages
  fresh_selectors : Fresh ks (selectors messages)
  fresh_idents : Fresh js (idents messages)
  kept : (j : Bytes) → NotIn j (idents messages) → HashMap.get j out ≡ HashMap.get j start
  listed : iter_items is out ≡ ret messages

module _ (hash : Bytes → Bytes) (prefix : TraitPrefix) where
  -- A round of the loop that goes on.
  extract_loop-round :
      (f : TraitItemFn) (is : List TraitItem) (seen : Seen) (start out : HashMap Bytes Selector)
      → next_message (fn_item f) ≡ ret (some f)
      → extract_loop hash prefix (fn_item f ∷ is) seen start ≡ ret (ok out)
      → (s : Selector) × (message_selector hash prefix f ≡ ret s)
        × (HashMap.get (to_bytes s) seen ≡ none)
        × (HashMap.get f.ident start ≡ none)
        × (extract_loop hash prefix is
              (HashMap.insert (to_bytes s) f.ident seen)
              (HashMap.insert f.ident s start)
            ≡ ret (ok out))
  unfolding extract_loop
  extract_loop-round f is seen start out yields h =
      elim (Outcome-cases (message_selector hash prefix f)) [
        | inl p ↦ absurd (ground arith)
        | inr (s, named) ↦ (s, named, ground arith, ground arith, ground arith)
      ]

  extract_loop-Extracted :
      (is : List TraitItem) (ks js : List Bytes) (seen : Seen) (start out : HashMap Bytes Selector)
      → Keys seen ks
      → Keys start js
      → analyse_items is ≡ ok tt
      → extract_loop hash prefix is seen start ≡ ret (ok out)
      → Extracted hash prefix is ks js start out
  unfolding extract_loop analyse_items iter_items
  extract_loop-Extracted [] ks js seen start out known_k known_j good h = record {
    messages = [];
    from_items = refl;
    references = tt;
    chosen = tt;
    fresh_selectors = tt;
    fresh_idents = tt;
    kept = λ j n. ground arith;
    listed = refl;
  }
  extract_loop-Extracted (const_item ∷ is) ks js seen start out known_k known_j good h =
      absurd (ground arith)
  extract_loop-Extracted (macro_item ∷ is) ks js seen start out known_k known_j good h =
      absurd (ground arith)
  extract_loop-Extracted (type_item ∷ is) ks js seen start out known_k known_j good h =
      absurd (ground arith)
  extract_loop-Extracted (verbatim_item ∷ is) ks js seen start out known_k known_j good h =
      absurd (ground arith)
  extract_loop-Extracted (unknown_item ∷ is) ks js seen start out known_k known_j good h =
      absurd (ground arith)
  extract_loop-Extracted (fn_item f ∷ is) ks js seen start out known_k known_j good h =
      let (t, here, later) = >>=-eq-ok (analyse_trait_fn f) _ good in
      let (yields, reference) = analyse_trait_fn_ok f here in
      let (s, named, free_k, free_j, rest) = extract_loop-round f is seen start out yields h in
      let k = to_bytes s in
      let r =
        extract_loop-Extracted is (k ∷ ks) (f.ident ∷ js) (HashMap.insert k f.ident seen)
          (HashMap.insert f.ident s start) out (insert-Keys seen ks k f.ident known_k)
          (insert-Keys start js f.ident s known_j) later rest in
      let found : HashMap.get f.ident out ≡ some s =
        r.kept f.ident (Fresh-cons_NotIn f.ident js (idents r.messages) r.fresh_idents)
        ∙ HashMap.get-insert f.ident f.ident s start
        ∙ rw (beq_refl f.ident) refl in
      record {
        messages = (f, s) ∷ r.messages;
        from_items = ap (λ t. fn_item f ∷ t) r.from_items;
        references = (reference, r.references);
        chosen = (named, r.chosen);
        fresh_selectors = ((known_k k).0 free_k, r.fresh_selectors);
        fresh_idents = ((known_j f.ident).0 free_j, r.fresh_idents);
        kept = λ j n.
            r.kept j n.1
            ∙ HashMap.get-insert j f.ident s start
            ∙ rw (beq_false_of_ne j f.ident n.0) refl;
        listed = ground (arith, yields, found, r.listed);
      }

-- What an accepted trait definition is made of, and what its iterator yields.
pub record Accepted (hash : Bytes → Bytes) (namespace : Option Bytes) (t : ItemTrait)
    (d : InkItemTrait) : Type 0 where
  pub messages : List Message
  pub not_empty : messages ≢ []
  pub all_functions : items_of messages ≡ t.items
  pub references : AllTakeReference messages
  pub chosen : Chosen hash (record { namespace = namespace; trait_ident = t.ident }) messages
  pub distinct_selectors : Distinct (selectors messages)
  pub distinct_idents : Distinct (idents messages)
  pub iterated : iter_items d.item.items d.message_selectors ≡ ret messages

-- The properties of an accepted trait.
pub record Plain (t : ItemTrait) : Type 0 where
  pub no_ink_identifier : t.has_ink_identifier ≡ false
  pub not_unsafe : t.is_unsafe ≡ false
  pub not_auto : t.is_auto ≡ false
  pub not_generic : t.generic_params ≡ 0
  pub public : t.is_public ≡ true
  pub no_supertraits : t.supertraits ≡ 0

pub analyse_ok : (t : ItemTrait) → analyse t ≡ ok tt → Plain t × (analyse_items t.items ≡ ok tt)
unfolding analyse analyse_properties
analyse_ok t h = (
  record {
    no_ink_identifier = ground arith;
    not_unsafe = ground arith;
    not_auto = ground arith;
    not_generic = ground arith;
    public = ground arith;
    no_supertraits = ground arith;
  },
  ground arith,
)

new_parts :
    (hash : Bytes → Bytes) (namespace : Option Bytes) (t : ItemTrait) (d : InkItemTrait)
    → new hash namespace t ≡ ret (ok d)
    → (analyse t ≡ ok tt)
      × ((out : HashMap Bytes Selector) × (extract_loop hash
              (record { namespace = namespace; trait_ident = t.ident })
              t.items
              []
              []
            ≡ ret (ok out))
          × (finish t (ok out) ≡ ok d))
unfolding new extract_selectors
new_parts hash namespace t d h =
    let prefix : TraitPrefix = record { namespace = namespace; trait_ident = t.ident } in
    elim (Outcome-cases (extract_loop hash prefix t.items [] [])) [
      | inl p ↦ absurd (ground arith)
      | inr (r, ran) ↦ elim (Result-cases r) [
        | inl (out, e) ↦ (ground arith, (out, ran ∙ ap ret e, ground arith))
        | inr (x, e) ↦ absurd (ground arith)
      ]
    ]

finish_ok :
    (t : ItemTrait) (out : HashMap Bytes Selector) (d : InkItemTrait)
    → finish t (ok out) ≡ ok d
    → (d.item ≡ t) × (d.message_selectors ≡ out) × (out ≢ [])
finish_ok t [] d h = cc
finish_ok t (e ∷ out) d h = (ground arith, ground arith, ground arith)

extract_loop_nil :
    (hash : Bytes → Bytes) (prefix : TraitPrefix) (is : List TraitItem)
    (out : HashMap Bytes Selector)
    → is ≡ []
    → extract_loop hash prefix is [] [] ≡ ret (ok out)
    → out ≡ []
unfolding extract_loop
extract_loop_nil hash prefix [] out e h = ground arith
extract_loop_nil hash prefix (i ∷ is) out e h = cc

-- A trait that `new` accepts has the plain properties. Its items are functions that take `&self` or
-- `&mut self`, at least one, of pairwise different names and selectors, and each selector is the one
-- that is given or composed; its iterator yields them in order, each with that selector.
pub new-Accepted :
    (hash : Bytes → Bytes) (namespace : Option Bytes) (t : ItemTrait) (d : InkItemTrait)
    → new hash namespace t ≡ ret (ok d)
    → Plain t × Accepted hash namespace t d
new-Accepted hash namespace t d h =
    let (analysed, (out, ran, ended)) = new_parts hash namespace t d h in
    let (plain, good) = analyse_ok t analysed in
    let prefix : TraitPrefix = record { namespace = namespace; trait_ident = t.ident } in
    let r =
      extract_loop-Extracted hash prefix t.items [] [] [] [] out empty-Keys empty-Keys good ran in
    let (same, selectors_out, nonempty) = finish_ok t out d ended in
    (
      plain,
      record {
        messages = r.messages;
        not_empty = λ none_left. nonempty (
            extract_loop_nil hash prefix t.items out (sym r.from_items ∙ ap items_of none_left)
              ran);
        all_functions = r.from_items;
        references = r.references;
        chosen = r.chosen;
        distinct_selectors = (Fresh-nil_iff (selectors r.messages)).0 r.fresh_selectors;
        distinct_idents = (Fresh-nil_iff (idents r.messages)).0 r.fresh_idents;
        iterated = rw (same, selectors_out) r.listed;
      },
    )
