-- ===== src/Contracts/Totals.antt =====
-- Sums over a list, and what `push`, `swap_remove` and an assignment make of them. How often a value
-- occurs is such a sum.
use ink.Prelude.{
  ℕ, ◌+◌, ◌≡◌, ◌<◌, refl, Option, none, some, List, [], ◌∷◌, ◌++◌, Outcome, ret, assert, ◌>>◌,
  arith, length, ltb, Eq, ◌==◌, if◌then◌else◌, Bool-cases, inl, inr,
}

-- `Vec::swap_remove` moves the last element to the index.
abbrev last_or {ℓ} : {A : Type ℓ} → A → List A → A
last_or x [] = x
last_or x (y ∷ ys) = last_or y ys

abbrev init_of {ℓ} : {A : Type ℓ} → A → List A → List A
init_of x [] = []
init_of x (y ∷ ys) = x ∷ init_of y ys

abbrev rotated {ℓ} : {A : Type ℓ} → List A → List A
rotated [] = []
rotated (y ∷ ys) = last_or y ys ∷ init_of y ys

unfoldable pub swapped {ℓ} : {A : Type ℓ} → ℕ → List A → List A
swapped i [] = []
swapped ℕ.zero (x ∷ xs) = rotated xs
swapped (ℕ.suc i) (x ∷ xs) = x ∷ swapped i xs

unfoldable pub swap_remove {ℓ} : {A : Type ℓ} → ℕ → List A → Outcome (List A)
swap_remove i xs = do assert (ltb i (length xs)); ret (swapped i xs)

-- `iter().position(|x| x == a)`
unfoldable pub position : {A : Type 0} ⦃e : Eq A⦄ → A → List A → Option ℕ
position a [] = none
position a (x ∷ xs) =
    let rest = position a xs in
    if x == a then some 0 else elim rest [ none ↦ none | some i ↦ some (ℕ.suc i) ]

-- `xs[i] = a`, within the bounds.
unfoldable pub assign {ℓ} : {A : Type ℓ} → ℕ → A → List A → List A
assign i a [] = []
assign ℕ.zero a (x ∷ xs) = a ∷ xs
assign (ℕ.suc i) a (x ∷ xs) = x ∷ assign i a xs

module _ {A : Type 0} where
  unfoldable pub total : (A → ℕ) → List A → ℕ
  total f [] = 0
  total f (x ∷ xs) = f x + total f xs

  pub total-append : (f : A → ℕ) (xs ys : List A) → total f (xs ++ ys) ≡ total f xs + total f ys
  unfolding total
  total-append f [] ys = omega arith
  total-append f (x ∷ xs) ys = omega (arith, total-append f xs ys)

  pub total-push : (f : A → ℕ) (xs : List A) (a : A) → total f (xs ++ a ∷ []) ≡ total f xs + f a
  unfolding total
  total-push f [] a = omega arith
  total-push f (x ∷ xs) a = omega (arith, total-push f xs a)

  total-rotated :
      (f : A → ℕ) (y : A) (ys : List A)
      → f (last_or y ys) + total f (init_of y ys) ≡ f y + total f ys
  unfolding total
  total-rotated f y [] = omega arith
  total-rotated f y (z ∷ zs) = omega (arith, total-rotated f z zs)

  pub total-one : (xs : List A) → total (λ _. 1) xs ≡ length xs
  unfolding total
  total-one [] = omega arith
  total-one (x ∷ xs) = omega (arith, total-one xs)

  module _ ⦃e : Eq A⦄ where
    -- How often a value occurs.
    abbrev pub count : A → List A → ℕ
    count a = total (λ x. if a == x then 1 else 0)

    position-nil : (b : A) (i : ℕ) → position b [] ≡ some i → ⊥
    unfolding position
    position-nil b i h = cc

    position-zero : (b x : A) (xs : List A) → position b (x ∷ xs) ≡ some 0 → x ≡ b
    unfolding position
    position-zero b x xs h = ground (arith, e.decides x b)

    position-suc :
        (b x : A) (xs : List A) (i : ℕ)
        → position b (x ∷ xs) ≡ some (ℕ.suc i)
        → position b xs ≡ some i
    unfolding position
    position-suc b x xs i h = ground arith

    pub total-swapped :
        (f : A → ℕ) (b : A) (xs : List A) (i : ℕ)
        → position b xs ≡ some i
        → total f (swapped i xs) + f b ≡ total f xs
    unfolding total swapped
    total-swapped f b [] i h = absurd (position-nil b i h)
    total-swapped f b (x ∷ []) ℕ.zero h = let same = position-zero b x [] h in rw same (omega arith)
    total-swapped f b (x ∷ y ∷ ys) ℕ.zero h =
        let same = position-zero b x (y ∷ ys) h in rw same (omega (arith, total-rotated f y ys))
    total-swapped f b (x ∷ xs) (ℕ.suc i) h =
        omega (arith, total-swapped f b xs i (position-suc b x xs i h))

    pub total-assign :
        (f : A → ℕ) (a b : A) (xs : List A) (i : ℕ)
        → position b xs ≡ some i
        → total f (assign i a xs) + f b ≡ total f xs + f a
    unfolding total assign
    total-assign f a b [] i h = absurd (position-nil b i h)
    total-assign f a b (x ∷ xs) ℕ.zero h =
        let same = position-zero b x xs h in rw same (omega arith)
    total-assign f a b (x ∷ xs) (ℕ.suc i) h =
        omega (arith, total-assign f a b xs i (position-suc b x xs i h))

    -- What occurs has a position, inside the list.
    pub position-some :
        (b : A) (xs : List A)
        → 0 < count b xs
        → (i : ℕ) × (position b xs ≡ some i) × (i < length xs)
    unfolding total position
    position-some b [] h = absurd (omega arith)
    position-some b (x ∷ xs) h = elim (Bool-cases (x == b)) [
      | inl here ↦ (0, ground arith, omega arith)
      | inr later ↦
          let (i, at, below) = position-some b xs (ground (arith, e.decides x b, e.decides b x)) in
          (ℕ.suc i, ground arith, omega arith)
    ]

    pub total-cong :
        (f g : A → ℕ) (xs : List A)
        → ((x : A) → 0 < count x xs → f x ≡ g x)
        → total f xs ≡ total g xs
    unfolding total
    total-cong f g [] h = refl
    total-cong f g (x ∷ xs) h =
        let here = h x (ground (arith, e.decides x x)) in
        let rest = total-cong f g xs (λ y m. h y (omega arith)) in omega arith

    -- A function that is larger by one at a value.
    pub total-add_at :
        (f g : A → ℕ) (a : A) (xs : List A)
        → ((x : A) → f x ≡ (if x == a then g x + 1 else g x))
        → total f xs ≡ total g xs + count a xs
    unfolding total
    total-add_at f g a [] h = omega arith
    total-add_at f g a (x ∷ xs) h =
        ground (arith, h x, e.decides x a, e.decides a x, total-add_at f g a xs h)

    pub total-same : (f g : A → ℕ) (xs : List A) → ((x : A) → f x ≡ g x) → total f xs ≡ total g xs
    total-same f g xs h = total-cong f g xs (λ x m. h x)

    pub total-zero : (f : A → ℕ) (xs : List A) → ((x : A) → f x ≡ 0) → total f xs ≡ 0
    unfolding total
    total-zero f [] h = refl
    total-zero f (x ∷ xs) h = omega (arith, h x, total-zero f xs h)

    pub count-nil : (a : A) → count a [] ≡ 0
    unfolding total
    count-nil a = refl

    pub count-cons :
        (a x : A) (xs : List A) → count a (x ∷ xs) ≡ (if a == x then 1 else 0) + count a xs
    unfolding total
    count-cons a x xs = refl

pub length-assign : {A : Type 0} (i : ℕ) (a : A) (xs : List A) → length (assign i a xs) ≡ length xs
unfolding assign
length-assign i a [] = refl
length-assign ℕ.zero a (x ∷ xs) = refl
length-assign (ℕ.suc i) a (x ∷ xs) = omega (arith, length-assign i a xs)
