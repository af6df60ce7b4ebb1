-- ===== src/Prelude/Keys.antt =====
-- The keys of a map, when it is used to tell what has been seen.
use mathlib.Core.Path.{◌≡◌, refl}
use mathlib.Core.Logic.{◌↔◌}
use mathlib.Core.Option.{none}
use mathlib.Core.List.{List, [], ◌∷◌}
use native.Mathlib.Omega.{arith}
use ink.Prelude.Equality.{Eq}
use ink.Prelude.HashMap
use ink.Prelude.HashMap.{HashMap}
use ink.Prelude.Distinct.{NotIn}

module _ {κ} {K : Type 0} {V : Type κ} ⦃e : Eq K⦄ where
  -- The keys of the map are `ks`.
  abbrev pub Keys : HashMap K V → List K → Type κ
  Keys m ks = (k : K) → (HashMap.get k m ≡ none) ↔ NotIn k ks

  pub insert-Keys :
      (m : HashMap K V) (ks : List K) (j : K) (v : V)
      → Keys m ks
      → Keys (HashMap.insert j v m) (j ∷ ks)
  insert-Keys m ks j v known k = ground (arith, HashMap.get-insert k j v m, e.decides k j, known k)

  pub empty-Keys : Keys [] []
  unfolding HashMap.get
  empty-Keys k = ((λ _. tt), (λ _. refl))
