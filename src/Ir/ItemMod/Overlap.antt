-- ===== src/Ir/ItemMod/Overlap.antt =====
-- `ensure_no_overlapping_selectors` of crates/ink/ir/src/ir/item_mod.rs.
use ink.Prelude.{◌≡◌, ◌↔◌, refl, subst, List, [], ◌∷◌, ◌++◌, arith, Bytes, bytes_eq}
use ink.Prelude.HashMap
use ink.Prelude.HashMap.{HashMap}
use ink.Prelude.Keys.{Keys, insert-Keys, empty-Keys}
use ink.Prelude.Distinct.{Distinct, Fresh, push, Fresh-nil_iff, Fresh-append_iff}
use ink.Prelude.Result.{ok, >>=-eq-ok}
use ink.Ir.Selector.{Selector, to_bytes}
use ink.Ir.Callable.{Callable, CallableWithSelector, ItemImpl, iter_messages, iter_constructors}
use ink.Ir.ItemMod.{
  Item, Error, Seen, impl_blocks, enter_all, enter_blocks, ensure_no_overlapping_selectors,
}

-- The selectors of a list of callables.
abbrev pub selectors : List CallableWithSelector → List Bytes
selectors [] = []
selectors (c ∷ cs) = to_bytes c.composed_selector ∷ selectors cs

enter_all-Fresh :
    (overlapping : Selector → Error) (cs : List CallableWithSelector) (seen : Seen)
    (ks : List Bytes)
    → Keys seen ks
    → Fresh ks (selectors cs)
    → (seen' : Seen) × (enter_all overlapping cs seen ≡ ok seen')
      × Keys seen' (push (selectors cs) ks)
unfolding enter_all
enter_all-Fresh overlapping [] seen ks known fresh = (seen, refl, known)
enter_all-Fresh overlapping (c ∷ cs) seen ks known fresh =
    let j = to_bytes c.composed_selector in
    let (seen', ran, known') =
      enter_all-Fresh overlapping cs (HashMap.insert j c.callable seen) (j ∷ ks)
        (insert-Keys seen ks j c.callable known) fresh.1 in
    (seen', ground (arith, known j), known')

enter_all-ok :
    (overlapping : Selector → Error) (cs : List CallableWithSelector) (seen seen' : Seen)
    (ks : List Bytes)
    → Keys seen ks
    → enter_all overlapping cs seen ≡ ok seen'
    → Fresh ks (selectors cs)
unfolding enter_all
enter_all-ok overlapping [] seen seen' ks known ran = tt
enter_all-ok overlapping (c ∷ cs) seen seen' ks known ran =
    let j = to_bytes c.composed_selector in
    ground (
      arith,
      known j,
      enter_all-ok overlapping cs (HashMap.insert j c.callable seen) seen' (j ∷ ks)
          (insert-Keys seen ks j c.callable known),
    )

enter_all-Keys :
    (overlapping : Selector → Error) (cs : List CallableWithSelector) (seen seen' : Seen)
    (ks : List Bytes)
    → Keys seen ks
    → enter_all overlapping cs seen ≡ ok seen'
    → Keys seen' (push (selectors cs) ks)
enter_all-Keys overlapping cs seen seen' ks known ran =
    let fresh = enter_all-ok overlapping cs seen seen' ks known ran in
    let (seen2, ran2, known2) = enter_all-Fresh overlapping cs seen ks known fresh in
    subst (λ s. Keys s (push (selectors cs) ks)) (ground arith) known2

module _ (selector_of : ItemImpl → Callable → Selector) where
  abbrev pub message_selectors : List ItemImpl → List Bytes
  message_selectors [] = []
  message_selectors (i ∷ is) = selectors (iter_messages selector_of i) ++ message_selectors is

  abbrev pub constructor_selectors : List ItemImpl → List Bytes
  constructor_selectors [] = []
  constructor_selectors (i ∷ is) =
      selectors (iter_constructors selector_of i) ++ constructor_selectors is

  enter_blocks-Fresh :
      (is : List ItemImpl) (messages constructors : Seen) (ms ks : List Bytes)
      → Keys messages ms
      → Keys constructors ks
      → Fresh ms (message_selectors is)
      → Fresh ks (constructor_selectors is)
      → enter_blocks selector_of is messages constructors ≡ ok tt
  unfolding enter_blocks
  enter_blocks-Fresh [] messages constructors ms ks known_m known_k fresh_m fresh_k = refl
  enter_blocks-Fresh (i ∷ is) messages constructors ms ks known_m known_k fresh_m fresh_k =
      let (here_m, later_m) =
        (Fresh-append_iff ms (selectors (iter_messages selector_of i)) (message_selectors is)).0
          fresh_m in
      let (here_k, later_k) =
        (Fresh-append_iff ks (selectors (iter_constructors selector_of i))
            (constructor_selectors is)).0
          fresh_k in
      let (messages', ran_m, known_m') =
        enter_all-Fresh Error.overlapping_messages (iter_messages selector_of i) messages ms known_m
          here_m in
      let (constructors', ran_k, known_k') =
        enter_all-Fresh Error.overlapping_constructors (iter_constructors selector_of i)
          constructors ks known_k here_k in
      ground (
        arith,
        enter_blocks-Fresh is messages' constructors'
            (push (selectors (iter_messages selector_of i)) ms)
            (push (selectors (iter_constructors selector_of i)) ks) known_m' known_k' later_m
            later_k,
      )

  enter_blocks-ok :
      (is : List ItemImpl) (messages constructors : Seen) (ms ks : List Bytes)
      → Keys messages ms
      → Keys constructors ks
      → enter_blocks selector_of is messages constructors ≡ ok tt
      → Fresh ms (message_selectors is) × Fresh ks (constructor_selectors is)
  unfolding enter_blocks
  enter_blocks-ok [] messages constructors ms ks known_m known_k ran = (tt, tt)
  enter_blocks-ok (i ∷ is) messages constructors ms ks known_m known_k ran =
      let m = iter_messages selector_of i in
      let k = iter_constructors selector_of i in
      let (messages', ran_m, rest) =
        >>=-eq-ok (enter_all Error.overlapping_messages m messages) _ ran in
      let (constructors', ran_k, later) =
        >>=-eq-ok (enter_all Error.overlapping_constructors k constructors) _ rest in
      let here_m = enter_all-ok Error.overlapping_messages m messages messages' ms known_m ran_m in
      let here_k =
        enter_all-ok Error.overlapping_constructors k constructors constructors' ks known_k ran_k in
      let known_m' =
        enter_all-Keys Error.overlapping_messages m messages messages' ms known_m ran_m in
      let known_k' =
        enter_all-Keys Error.overlapping_constructors k constructors constructors' ks known_k
          ran_k in
      let (later_m, later_k) =
        enter_blocks-ok is messages' constructors' (push (selectors m) ms) (push (selectors k) ks)
          known_m' known_k' later in
      (
        (Fresh-append_iff ms (selectors m) (message_selectors is)).1 (here_m, later_m),
        (Fresh-append_iff ks (selectors k) (constructor_selectors is)).1 (here_k, later_k),
      )

  -- `ensure_no_overlapping_selectors` accepts a module exactly when the selectors of all its
  -- messages are pairwise different and those of all its constructors are.
  pub ensure_no_overlapping_selectors_iff :
      (items : List Item)
      → (ensure_no_overlapping_selectors selector_of items ≡ ok tt) ↔ (
          Distinct (message_selectors (impl_blocks items))
          × Distinct (constructor_selectors (impl_blocks items)))
  unfolding ensure_no_overlapping_selectors
  ensure_no_overlapping_selectors_iff items =
      let is = impl_blocks items in
      let (m_to, m_from) = Fresh-nil_iff (message_selectors is) in
      let (k_to, k_from) = Fresh-nil_iff (constructor_selectors is) in
      (
        (λ ran.
            let (m, k) = enter_blocks-ok is [] [] [] [] empty-Keys empty-Keys ran in
            (m_to m, k_to k)),
        (λ d. enter_blocks-Fresh is [] [] [] [] empty-Keys empty-Keys (m_from d.0) (k_from d.1)),
      )
