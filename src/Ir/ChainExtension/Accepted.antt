-- ===== src/Ir/ChainExtension/Accepted.antt =====
-- The chain extensions that crates/ink/ir/src/ir/chain_extension.rs accepts.
use mathlib.Core.List.{append_assoc, append-nil}
use ink.Prelude.{
  ℕ, ◌≡◌, ◌≢◌, refl, sym, ap, subst, ◌∙◌, false, Option, none, some, List, [], ◌∷◌, ◌++◌, arith,
  bytes_eq, nat_eq, Option-cases, inl, inr,
}
use ink.Prelude.HashMap
use ink.Prelude.HashMap.{HashMap}
use ink.Prelude.Keys.{Keys, insert-Keys, empty-Keys}
use ink.Prelude.Distinct.{NotIn, Distinct, Fresh, Fresh-nil_iff}
use ink.Prelude.Result.{ok, >>=-eq-ok}
use ink.Ir.ChainExtension.{
  TraitItemType, TraitItemFn, TraitItem, ItemTrait, ChainExtensionMethod, Analysis, ChainExtension,
  const_item, macro_item, verbatim_item, unknown_item, type_item, fn_item, error_code_name,
  analyse_properties, analyse_error_code, analyse_chain_extension_method, analyse_methods,
  add_method, analyse_loop, analyse_items, try_from,
}

abbrev pub ids : List ChainExtensionMethod → List ℕ
ids [] = []
ids (m ∷ ms) = m.id ∷ ids ms

abbrev pub items_of : List ChainExtensionMethod → List TraitItemFn
items_of [] = []
items_of (m ∷ ms) = m.item ∷ items_of ms

-- The functions and the associated types of a trait, in order.
abbrev pub functions : List TraitItem → List TraitItemFn
functions [] = []
functions (fn_item f ∷ is) = f ∷ functions is
functions (_ ∷ is) = functions is

abbrev pub types : List TraitItem → List TraitItemType
types [] = []
types (type_item t ∷ is) = t ∷ types is
types (_ ∷ is) = types is

abbrev pub NoReceiver : List TraitItemFn → Type 0
NoReceiver [] = Unit
NoReceiver (f ∷ fs) = (f.has_receiver ≡ false) × NoReceiver fs

abbrev as_list : {A : Type 0} → Option A → List A
as_list none = []
as_list (some a) = a ∷ []

abbrev pub Named : List TraitItemType → Type 0
Named [] = Unit
Named (t ∷ ts) = (t.ident ≡ error_code_name) × (t.default_type ≢ none) × Named ts

analyse_error_code_ok :
    (t : TraitItemType) (previous new : Option TraitItemType)
    → analyse_error_code t previous ≡ ok new
    → (previous ≡ none) × (new ≡ some t) × (t.ident ≡ error_code_name) × (t.default_type ≢ none)
unfolding analyse_error_code
analyse_error_code_ok t previous new h = ground (arith, bytes_eq.decides t.ident error_code_name)

analyse_methods_ok :
    (f : TraitItemFn) (m : ChainExtensionMethod)
    → analyse_methods f ≡ ok m
    → (m.item ≡ f) × (f.has_receiver ≡ false)
unfolding analyse_methods analyse_chain_extension_method
analyse_methods_ok f m h = ground arith

-- What the loop adds to its variables.
record Added (is : List TraitItem) (ks : List ℕ) (a b : Analysis) : Type 0 where
  new : List ChainExtensionMethod
  appended : b.methods ≡ a.methods ++ new
  fresh : Fresh ks (ids new)
  from_items : items_of new ≡ functions is
  no_receiver : NoReceiver (functions is)
  codes : as_list b.error_code ≡ as_list a.error_code ++ types is
  named : Named (types is)

add_method_ok :
    (m : ChainExtensionMethod) (a b : Analysis) (ks : List ℕ)
    → Keys a.seen_ids ks
    → add_method m a ≡ ok b
    → NotIn m.id ks
      × Keys b.seen_ids (m.id ∷ ks)
      × (b.methods ≡ a.methods ++ m ∷ [])
      × (b.error_code ≡ a.error_code)
unfolding add_method
add_method_ok m a b ks known h = elim (Option-cases (HashMap.get m.id a.seen_ids)) [
  | inl free ↦ (
    (known m.id).0 free,
    (let stored : HashMap.insert m.id m.item.ident a.seen_ids ≡ b.seen_ids = ground arith in
        subst (λ s. Keys s (m.id ∷ ks)) stored (insert-Keys a.seen_ids ks m.id m.item.ident known)),
    ground arith,
    ground arith,
  )
  | inr (v, used) ↦ absurd (ground arith)
]

analyse_loop-Added :
    (is : List TraitItem) (ks : List ℕ) (a b : Analysis)
    → Keys a.seen_ids ks
    → analyse_loop is a ≡ ok b
    → Added is ks a b
unfolding analyse_loop
analyse_loop-Added [] ks a b known h = record {
  new = [];
  appended = ground (arith, append-nil a.methods);
  fresh = tt;
  from_items = refl;
  no_receiver = tt;
  codes = ground (arith, append-nil (as_list a.error_code));
  named = tt;
}
analyse_loop-Added (const_item ∷ is) ks a b known h = absurd (ground arith)
analyse_loop-Added (macro_item ∷ is) ks a b known h = absurd (ground arith)
analyse_loop-Added (verbatim_item ∷ is) ks a b known h = absurd (ground arith)
analyse_loop-Added (unknown_item ∷ is) ks a b known h = absurd (ground arith)
analyse_loop-Added (type_item t ∷ is) ks a b known h =
    let (code, analysed, later) = >>=-eq-ok (analyse_error_code t a.error_code) _ h in
    let (no_previous, now, name, has_type) = analyse_error_code_ok t a.error_code code analysed in
    let r = analyse_loop-Added is ks (record a { error_code = code }) b known later in
    record {
      new = r.new;
      appended = r.appended;
      fresh = r.fresh;
      from_items = r.from_items;
      no_receiver = r.no_receiver;
      codes = ground (arith, r.codes);
      named = (name, has_type, r.named);
    }
analyse_loop-Added (fn_item f ∷ is) ks a b known h =
    let (m, analysed, later) = >>=-eq-ok (analyse_methods f) _ h in
    let (same, plain) = analyse_methods_ok f m analysed in
    let (a', added, rest) = >>=-eq-ok (add_method m a) _ later in
    let (unseen, known', methods, codes) = add_method_ok m a a' ks known added in
    let r = analyse_loop-Added is (m.id ∷ ks) a' b known' rest in
    record {
      new = m ∷ r.new;
      appended =
          r.appended ∙ ap (λ ms. ms ++ r.new) methods ∙ append_assoc a.methods (m ∷ []) r.new;
      fresh = (unseen, r.fresh);
      from_items = ground (arith, same, r.from_items);
      no_receiver = (plain, r.no_receiver);
      codes = ground (arith, codes, r.codes);
      named = r.named;
    }

-- What an accepted trait is made of.
pub record Accepted (t : ItemTrait) (error_code : TraitItemType)
    (methods : List ChainExtensionMethod) : Type 0 where
  pub all_functions : items_of methods ≡ functions t.items
  pub one_error_code : types t.items ≡ error_code ∷ []
  pub error_code_named : Named (types t.items)
  pub distinct_ids : Distinct (ids methods)
  pub no_receiver : NoReceiver (functions t.items)

analyse_items_ok :
    (t : ItemTrait) (code : TraitItemType) (methods : List ChainExtensionMethod)
    → analyse_items t ≡ ok (code, methods)
    → Accepted t code methods
unfolding analyse_items
analyse_items_ok t code methods h =
    let start : Analysis = record { methods = []; seen_ids = []; error_code = none } in
    let (b, ran, rest) = >>=-eq-ok (analyse_loop t.items start) _ h in
    let r = analyse_loop-Added t.items [] start b empty-Keys ran in
    let found : b.error_code ≡ some code = ground arith in
    let all : b.methods ≡ methods = ground arith in
    let new : r.new ≡ methods = sym r.appended ∙ all in
    record {
      all_functions = ap items_of (sym new) ∙ r.from_items;
      one_error_code = sym r.codes ∙ ap as_list found;
      error_code_named = r.named;
      distinct_ids = subst (λ ms. Distinct (ids ms)) new ((Fresh-nil_iff (ids r.new)).0 r.fresh);
      no_receiver = r.no_receiver;
    }

try_from_steps :
    (t : ItemTrait) (c : ChainExtension)
    → try_from t ≡ ok c
    → (c.item ≡ t) × (analyse_items t ≡ ok (c.error_code, c.methods))
unfolding try_from analyse_properties
try_from_steps t c h = ground arith

-- A trait that is accepted as a chain extension has one method for each of its functions, in
-- order, without a receiver, and of pairwise different ids; its one associated type is called
-- `ErrorCode`, has a default, and is the error code.
pub try_from-Accepted :
    (t : ItemTrait) (c : ChainExtension)
    → try_from t ≡ ok c
    → (c.item ≡ t) × Accepted t c.error_code c.methods
try_from-Accepted t c h =
    let (item, analysed) = try_from_steps t c h in
    (item, analyse_items_ok t c.error_code c.methods analysed)
