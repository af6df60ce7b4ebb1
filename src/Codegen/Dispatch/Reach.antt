-- ===== src/Codegen/Dispatch/Reach.antt =====
-- Which callable an input is decoded to, crates/ink/codegen/src/generator/dispatch.rs.
use ink.Prelude.{
  ℕ, ◌+◌, ◌≡◌, ◌≢◌, ◌⊎◌, inl, inr, refl, none, some, List, [], ◌∷◌, ◌++◌, Bytes, bytes_eq, ◌==◌,
  get_elem?, arith, Bool-cases, true, false,
}
use ink.Prelude.Distinct.{NotIn, Distinct}
use ink.Prelude.Result.{err}
use ink.Ir.Selector.{Selector, to_bytes}
use ink.Codegen.Dispatch.{
  unknown_selector, Dispatchable, select, query_wildcard, decode_arm, decode_dispatch,
}

module _ {F Args : Type 0} where
  -- The constants of the arms.
  abbrev pub constants : List (Dispatchable F Args) → List Bytes
  constants [] = []
  constants (d ∷ ds) = to_bytes d.selector ∷ constants ds

  constants-get_elem? :
      (key : Bytes) (ds : List (Dispatchable F Args)) (i : ℕ) (d : Dispatchable F Args)
      → NotIn key (constants ds)
      → get_elem? ds i ≡ some d
      → key ≢ to_bytes d.selector
  constants-get_elem? key [] i d fresh there = cc
  constants-get_elem? key (c ∷ ds) ℕ.zero d fresh there = λ e. fresh.0 (cc)
  constants-get_elem? key (c ∷ ds) (ℕ.suc i) d fresh there =
      constants-get_elem? key ds i d fresh.1 there

  -- Where the constants are different, an arm is selected by its own.
  select-get_elem? :
      (n : ℕ) (ds : List (Dispatchable F Args)) (i : ℕ) (d : Dispatchable F Args)
      → Distinct (constants ds)
      → get_elem? ds i ≡ some d
      → select (to_bytes d.selector) n ds ≡ some (n + i, d)
  unfolding select
  select-get_elem? n [] i d fresh there = cc
  select-get_elem? n (c ∷ ds) ℕ.zero d fresh there =
      ground (arith, bytes_eq.decides (to_bytes c.selector) (to_bytes d.selector))
  select-get_elem? n (c ∷ ds) (ℕ.suc i) d fresh there =
      let other = constants-get_elem? (to_bytes c.selector) ds i d fresh.0 there in
      ground (
        arith,
        bytes_eq.decides (to_bytes c.selector) (to_bytes d.selector),
        select-get_elem? (ℕ.suc n) ds i d fresh.1 there,
      )

  -- The input of a callable, behind its selector, is decoded to it, where the constants are
  -- different.
  pub decode_dispatch-reaches :
      (ds : List (Dispatchable F Args)) (i : ℕ) (d : Dispatchable F Args) (rest : Bytes)
      → Distinct (constants ds)
      → get_elem? ds i ≡ some d
      → decode_dispatch ds (to_bytes d.selector ++ rest) ≡ decode_arm i d rest
  unfolding decode_dispatch to_bytes
  decode_dispatch-reaches ds i d rest fresh there =
      ground (arith, select-get_elem? 0 ds i d fresh there)

  -- An arm of the list whose constant is `key`.
  pub record Selected (key : Bytes) (n : ℕ) (ds : List (Dispatchable F Args)) : Type 0 where
    pub index : ℕ
    pub info : Dispatchable F Args
    pub listed : get_elem? ds index ≡ some info
    pub named : to_bytes info.selector ≡ key
    pub runs : select key n ds ≡ some (n + index, info)

  select_cases :
      (key : Bytes) (n : ℕ) (ds : List (Dispatchable F Args))
      → Selected key n ds ⊎ (NotIn key (constants ds) × (select key n ds ≡ none))
  unfolding select
  select_cases key n [] = inr (tt, refl)
  select_cases key n (d ∷ ds) = elim (Bool-cases (to_bytes d.selector == key)) [
    | inl e ↦ inl (record {
      index = 0;
      info = d;
      listed = refl;
      named = (bytes_eq.decides _ _).0 e;
      runs = ground arith;
    })
    | inr e ↦ elim (select_cases key (ℕ.suc n) ds) [
      | inl r ↦ inl (record {
        index = ℕ.suc r.index;
        info = r.info;
        listed = r.listed;
        named = r.named;
        runs = ground (arith, r.runs);
      })
      | inr (fresh, missed) ↦
          inr (
            ((λ q. ground (arith, bytes_eq.decides (to_bytes d.selector) key)), fresh),
            ground arith,
          )
    ]
  ]

  abbrev pub NoWildcard : List (Dispatchable F Args) → Type 0
  NoWildcard [] = Unit
  NoWildcard (d ∷ ds) = (d.wildcard ≡ false) × NoWildcard ds

  -- The first callable of the list whose selector is a wildcard.
  pub record Wildcard (n : ℕ) (ds : List (Dispatchable F Args)) : Type 0 where
    pub index : ℕ
    pub info : Dispatchable F Args
    pub listed : get_elem? ds index ≡ some info
    pub is_wildcard : info.wildcard ≡ true
    pub runs : query_wildcard n ds ≡ some (n + index, info)

  Wildcard-cases :
      (n : ℕ) (ds : List (Dispatchable F Args))
      → Wildcard n ds ⊎ (NoWildcard ds × (query_wildcard n ds ≡ none))
  unfolding query_wildcard
  Wildcard-cases n [] = inr (tt, refl)
  Wildcard-cases n (d ∷ ds) = elim (Bool-cases d.wildcard) [
    | inl e ↦
        inl (record { index = 0; info = d; listed = refl; is_wildcard = e; runs = ground arith })
    | inr e ↦ elim (Wildcard-cases (ℕ.suc n) ds) [
      | inl w ↦ inl (record {
        index = ℕ.suc w.index;
        info = w.info;
        listed = w.listed;
        is_wildcard = w.is_wildcard;
        runs = ground (arith, w.runs);
      })
      | inr (plain, missed) ↦ inr ((e, plain), ground arith)
    ]
  ]

  -- An input that starts with a selector is decoded by a callable with that selector; or there is
  -- none, and it is decoded by one whose selector is a wildcard; or there is none of these either,
  -- and the selector is unknown.
  pub decode_dispatch_cases :
      (ds : List (Dispatchable F Args)) (key : Selector) (rest : Bytes)
      → ((i : ℕ) × (d : Dispatchable F Args) × (get_elem? ds i ≡ some d)
          × (to_bytes d.selector ≡ to_bytes key)
          × (decode_dispatch ds (to_bytes key ++ rest) ≡ decode_arm i d rest))
        ⊎ ((NotIn (to_bytes key) (constants ds)
              × ((i : ℕ) × (d : Dispatchable F Args) × (get_elem? ds i ≡ some d)
                  × (d.wildcard ≡ true)
                  × (decode_dispatch ds (to_bytes key ++ rest) ≡ decode_arm i d rest)))
            ⊎ (NotIn (to_bytes key) (constants ds)
                × NoWildcard ds
                × (decode_dispatch ds (to_bytes key ++ rest) ≡ err unknown_selector)))
  unfolding decode_dispatch to_bytes
  decode_dispatch_cases ds key rest = elim (select_cases (to_bytes key) 0 ds) [
    | inl r ↦ inl (r.index, r.info, r.listed, r.named, ground (arith, r.runs))
    | inr (fresh, missed) ↦ inr (elim (Wildcard-cases 0 ds) [
      | inl w ↦ inl (fresh, (w.index, w.info, w.listed, w.is_wildcard, ground (arith, w.runs)))
      | inr (plain, missed2) ↦ inr (fresh, plain, ground arith)
    ])
  ]
