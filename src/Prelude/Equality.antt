-- ===== src/Prelude/Equality.antt =====
-- Boolean equality as an interface, with the instances for numbers and byte strings.
use Prim.Native.Nat.{ℕ}
use mathlib.Core.Path.{◌≡◌, refl, sym, ap}
use mathlib.Core.Logic.{◌↔◌, ◌≢◌}
use mathlib.Core.Bool.{Bool, true, false, ◌&&◌}
use mathlib.Core.List.{List, [], ◌∷◌}
use native.Mathlib.Omega.{arith}
use ink.Prelude.Tests.{nat_beq, nat_beq_iff}

-- A test, and the proof that it decides equality.
pub record Eq {ℓ} (T : Type ℓ) : Type ℓ where
  pub beq : T → T → Bool
  pub decides : (x y : T) → (beq x y ≡ true) ↔ (x ≡ y)

instance abbrev pub nat_eq : Eq ℕ
nat_eq = record { beq = nat_beq; decides = nat_beq_iff }

abbrev pub ◌==◌ {κ} : {K : Type κ} ⦃test : Eq K⦄ → K → K → Bool
◌==◌ ⦃test⦄ x y = test.beq x y

infix 50 ◌==◌
abbrev pub bytes_beq : List ℕ → List ℕ → Bool
bytes_beq [] [] = true
bytes_beq (a ∷ as') (b ∷ bs) = nat_beq a b && bytes_beq as' bs
bytes_beq _ _ = false

pub bytes_beq_iff : (a b : List ℕ) → (bytes_beq a b ≡ true) ↔ (a ≡ b)
bytes_beq_iff [] [] = ground arith
bytes_beq_iff [] (b ∷ bs) = ground arith
bytes_beq_iff (a ∷ as') [] = ground arith
bytes_beq_iff (a ∷ as') (b ∷ bs) = ground (arith, bytes_beq_iff as' bs)

instance abbrev pub bytes_eq : Eq (List ℕ)
bytes_eq = record { beq = bytes_beq; decides = bytes_beq_iff }

pub Bool-eq_of_iff : (x y : Bool) → (x ≡ true → y ≡ true) → (y ≡ true → x ≡ true) → x ≡ y
Bool-eq_of_iff true y f g = sym (f refl)
Bool-eq_of_iff false y f g = ground arith

module _ {ℓ κ} {A : Type ℓ} {B : Type κ} ⦃a : Eq A⦄ ⦃b : Eq B⦄ where
  -- An injective function keeps the outcome of every test.
  pub beq-injective :
      (f : A → B) → ((x y : A) → f x ≡ f y → x ≡ y) → (x y : A) → (f x == f y) ≡ (x == y)
  beq-injective f h x y =
      Bool-eq_of_iff _ _ (λ p. (a.decides x y).1 (h x y ((b.decides _ _).0 p)))
        (λ p. (b.decides _ _).1 (ap f ((a.decides x y).0 p)))

module _ {ℓ} {A : Type ℓ} ⦃a : Eq A⦄ where
  pub beq_refl : (x : A) → (x == x) ≡ true
  beq_refl x = (a.decides x x).1 refl

  pub beq_false_of_ne : (x y : A) → x ≢ y → (x == y) ≡ false
  beq_false_of_ne x y h = ground (arith, a.decides x y)

module _ {A B : Type 0} ⦃a : Eq A⦄ ⦃b : Eq B⦄ where
  pub pair_decides : (x y : A × B) → (a.beq x.0 y.0 && b.beq x.1 y.1 ≡ true) ↔ (x ≡ y)
  pair_decides (x, v) (y, w) = ground (arith, a.decides x y, b.decides v w)

  instance abbrev pub pair_eq : Eq (A × B)
  pair_eq = record { beq = λ x y. a.beq x.0 y.0 && b.beq x.1 y.1; decides = pair_decides }
