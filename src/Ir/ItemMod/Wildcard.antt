-- ===== src/Ir/ItemMod/Wildcard.antt =====
-- `ensure_valid_wildcard_selector_usage` of crates/ink/ir/src/ir/item_mod.rs.
use mathlib.Core.List.{append_assoc, append-nil}
use ink.Prelude.{
  ◌≡◌, ◌<◌, ◌^◌, ◌%◌, refl, sym, subst, true, false, Option, none, some, List, [], ◌∷◌, ◌++◌, arith,
  Option-cases, length, if◌then◌else◌,
}
use ink.Prelude.Result.{ok, >>=-eq-ok}
use ink.Ir.Selector.{Selector}
use ink.Ir.Callable.{
  Callable, CallableWithSelector, ItemImpl, iter_messages, iter_constructors, has_wildcard_selector,
  has_wildcard_complement_selector,
}
use ink.Ir.ItemMod.{
  Item, Usage, impl_blocks, scan_messages, check_usage, check_others, any_complement,
  scan_constructors, scan_blocks, ensure_valid_wildcard_selector_usage,
}
use ink.Ir.ItemMod.Quantity.{all_messages}

-- The messages with a wildcard selector, and the others, in order.
abbrev pub wildcards : List CallableWithSelector → List Callable
wildcards [] = []
wildcards (c ∷ cs) =
    let rest = wildcards cs in if has_wildcard_selector c.callable then c.callable ∷ rest else rest

abbrev pub others : List CallableWithSelector → List Callable
others [] = []
others (c ∷ cs) =
    let rest = others cs in if has_wildcard_selector c.callable then rest else c.callable ∷ rest

abbrev pub as_list : Option Callable → List Callable
as_list none = []
as_list (some c) = c ∷ []

wildcards-append :
    (cs ds : List CallableWithSelector) → wildcards (cs ++ ds) ≡ wildcards cs ++ wildcards ds
wildcards-append [] ds = refl
wildcards-append (c ∷ cs) ds = ground (arith, wildcards-append cs ds)

others-append : (cs ds : List CallableWithSelector) → others (cs ++ ds) ≡ others cs ++ others ds
others-append [] ds = refl
others-append (c ∷ cs) ds = ground (arith, others-append cs ds)

-- What the loop has seen is the wildcard messages, one at most, and the others.
scan_wildcard :
    (cs : List CallableWithSelector) (u v : Usage)
    → scan_messages cs u ≡ ok v
    → as_list v.wildcard_selector ≡ as_list u.wildcard_selector ++ wildcards cs
unfolding scan_messages
scan_wildcard [] u v h = ground (arith, append-nil (as_list u.wildcard_selector))
scan_wildcard (c ∷ cs) u v h = ground (
  arith,
  scan_wildcard cs (record u { other_messages = u.other_messages ++ c.callable ∷ [] }) v,
  scan_wildcard cs (record u { wildcard_selector = some c.callable }) v,
  Option-cases u.wildcard_selector,
)

scan_others :
    (cs : List CallableWithSelector) (u v : Usage)
    → scan_messages cs u ≡ ok v
    → v.other_messages ≡ u.other_messages ++ others cs
unfolding scan_messages
scan_others [] u v h = ground (arith, append-nil u.other_messages)
scan_others (c ∷ cs) u v h = ground (
  arith,
  scan_others cs (record u { other_messages = u.other_messages ++ c.callable ∷ [] }) v,
  scan_others cs (record u { wildcard_selector = some c.callable }) v,
  append_assoc u.other_messages (c.callable ∷ []) (others cs),
)

-- No wildcard message and no complement, or one wildcard message and one other, the complement.
abbrev pub WellUsed : List Callable → List Callable → Type 0
WellUsed [] os = any_complement os ≡ false
WellUsed (w ∷ []) os = (o : Callable) × (os ≡ o ∷ []) × (has_wildcard_complement_selector o ≡ true)
WellUsed (_ ∷ _ ∷ _) os = ⊥

check_others-ok :
    (os : List Callable)
    → length os < 2 ^ 32
    → check_others os (length os % 2 ^ 32) ≡ ok tt
    → (o : Callable) × (os ≡ o ∷ []) × (has_wildcard_complement_selector o ≡ true)
check_others-ok [] small h = absurd (ground arith)
check_others-ok (o ∷ []) small h = (o, refl, ground arith)
check_others-ok (o ∷ p ∷ os) small h = absurd (ground arith)

check_usage-ok :
    (u : Usage)
    → length u.other_messages < 2 ^ 32
    → check_usage u ≡ ok tt
    → WellUsed (as_list u.wildcard_selector) u.other_messages
unfolding check_usage
check_usage-ok u small h = go u.wildcard_selector h
  where
    go :
        (o : Option Callable)
        → check_usage (record { wildcard_selector = o; other_messages = u.other_messages }) ≡ ok tt
        → WellUsed (as_list o) u.other_messages
    go none h = ground arith
    go (some w) h = check_others-ok u.other_messages small h

module _ (selector_of : ItemImpl → Callable → Selector) where
  -- The last check is made on all the messages.
  scan_blocks-ok :
      (is : List ItemImpl) (u : Usage)
      → check_usage u ≡ ok tt
      → scan_blocks selector_of is u ≡ ok tt
      → (v : Usage) × (as_list v.wildcard_selector
          ≡ as_list u.wildcard_selector ++ wildcards (all_messages selector_of is))
        × (v.other_messages ≡ u.other_messages ++ others (all_messages selector_of is))
        × (check_usage v ≡ ok tt)
  unfolding scan_blocks
  scan_blocks-ok [] u checked h = (
    u,
    sym (append-nil (as_list u.wildcard_selector)),
    sym (append-nil u.other_messages),
    checked,
  )
  scan_blocks-ok (i ∷ is) u checked h =
      let ms = iter_messages selector_of i in
      let (v, scanned, rest) = >>=-eq-ok (scan_messages ms u) _ h in
      let (_, checked', rest') = >>=-eq-ok (check_usage v) _ rest in
      let (_, _, later) =
        >>=-eq-ok (scan_constructors (iter_constructors selector_of i) false) _ rest' in
      let (w, one, all, last) = scan_blocks-ok is v checked' later in
      (
        w,
        ground (
          arith,
          one,
          scan_wildcard ms u v scanned,
          wildcards-append ms (all_messages selector_of is),
          append_assoc (as_list u.wildcard_selector) (wildcards ms)
              (wildcards (all_messages selector_of is)),
        ),
        ground (
          arith,
          all,
          scan_others ms u v scanned,
          others-append ms (all_messages selector_of is),
          append_assoc u.other_messages (others ms) (others (all_messages selector_of is)),
        ),
        last,
      )

  -- A module that `ensure_valid_wildcard_selector_usage` accepts, of fewer than 2 ^ 32 messages, has
  -- no wildcard message and no wildcard complement, or one wildcard message and one other message,
  -- which is the complement.
  pub ensure_valid_wildcard_selector_usage-WellUsed :
      (items : List Item)
      → length (others (all_messages selector_of (impl_blocks items))) < 2 ^ 32
      → ensure_valid_wildcard_selector_usage selector_of items ≡ ok tt
      → WellUsed
          (wildcards (all_messages selector_of (impl_blocks items)))
          (others (all_messages selector_of (impl_blocks items)))
  unfolding ensure_valid_wildcard_selector_usage check_usage
  ensure_valid_wildcard_selector_usage-WellUsed items small h =
      let (v, one, all, checked) = scan_blocks-ok (impl_blocks items) _ refl h in
      subst (λ ws. WellUsed ws (others (all_messages selector_of (impl_blocks items)))) one
        (subst (λ os. WellUsed (as_list v.wildcard_selector) os) all
          (check_usage-ok v (subst (λ os. length os < 2 ^ 32) (sym all) small) checked))
