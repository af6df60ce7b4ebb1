-- ===== src/Prelude/HashMap.antt =====
-- `HashMap` as an association list. The program never relies on the order of iteration, except
-- through `values().sum()`, which does not depend on it.
use mathlib.Core.Path.{◌≡◌, refl}
use mathlib.Core.Option.{Option, none, some}
use mathlib.Core.List.{List, [], ◌∷◌}
use native.Mathlib.Omega.{arith}
use ink.Prelude.Tests.{if◌then◌else◌}
use ink.Prelude.Equality.{Eq, ◌==◌}

abbrev pub HashMap {ℓ κ} : Type ℓ → Type κ → Type (ℓ ⊔ κ)
HashMap K V = List (K × V)

-- The value that `upsert` stores.
abbrev pub upserted {κ} : {V : Type κ} → (V → V) → V → Option V → V
upserted f v none = v
upserted f v (some w) = f w

module _ {ℓ κ} {K : Type ℓ} {V : Type κ} ⦃e : Eq K⦄ where
  unfoldable pub get : K → HashMap K V → Option V
  get k [] = none
  get k ((j, v) ∷ m) = if k == j then some v else get k m

  unfoldable pub insert : K → V → HashMap K V → HashMap K V
  insert k v [] = (k, v) ∷ []
  insert k v ((j, w) ∷ m) = if k == j then (k, v) ∷ m else (j, w) ∷ insert k v m

  unfoldable pub remove : K → HashMap K V → HashMap K V
  remove k [] = []
  remove k ((j, w) ∷ m) = let rest = remove k m in if k == j then rest else (j, w) ∷ rest

  -- `entry(k).and_modify(f).or_insert(v)`
  unfoldable pub upsert : K → (V → V) → V → HashMap K V → HashMap K V
  upsert k f v m = elim (get k m) [ none ↦ insert k v m | some w ↦ insert k (f w) m ]

  pub get-insert :
      (j k : K) (v : V) (m : HashMap K V)
      → get j (insert k v m) ≡ (if j == k then some v else get j m)
  unfolding get insert
  get-insert j k v [] = refl
  get-insert j k v ((i, w) ∷ m) =
      ground (arith, e.decides j k, e.decides k i, e.decides j i, get-insert j k v m)

  pub get-remove :
      (j k : K) (m : HashMap K V) → get j (remove k m) ≡ (if j == k then none else get j m)
  unfolding get remove
  get-remove j k [] = ground arith
  get-remove j k ((i, w) ∷ m) =
      ground (arith, e.decides j k, e.decides k i, e.decides j i, get-remove j k m)

  pub get-upsert :
      (j k : K) (f : V → V) (v : V) (m : HashMap K V)
      → get j (upsert k f v m) ≡ (if j == k then some (upserted f v (get k m)) else get j m)
  unfolding upsert
  get-upsert j k f v m = go (get k m)
    where
      go :
          (o : Option V)
          → get j (elim o [ none ↦ insert k v m | some w ↦ insert k (f w) m ])
            ≡ (if j == k then some (upserted f v o) else get j m)
      go none = get-insert j k v m
      go (some w) = get-insert j k (f w) m

  pub get-empty : (k : K) → get k (let m : HashMap K V = [] in m) ≡ none
  unfolding get
  get-empty k = refl
