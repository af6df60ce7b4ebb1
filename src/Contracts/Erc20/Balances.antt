-- ===== src/Contracts/Erc20/Balances.antt =====
-- The balances of the token add up to the total supply, integration-tests/erc20/lib.rs.
use ink.Prelude.{
  ℕ, ◌+◌, ◌≤◌, ◌<◌, ◌≡◌, ◌≢◌, refl, List, [], ◌∷◌, bytes_eq, arith, Bool-cases, inl, inr, nat_beq,
}
use ink.Engine.Host.{u128_mod}
use ink.Contracts.Totals.{total, count, count-nil, count-cons}
use ink.Contracts.Erc20.{AccountId, Erc20, balance_of}

-- Some accounts, each once, hold the total supply; the others hold nothing.
pub record Backs (holders : List AccountId) (supply : ℕ) (balance : AccountId → ℕ) : Type 0 where
  pub distinct : (o : AccountId) → count o holders ≤ 1
  pub nothing : (o : AccountId) → count o holders ≡ 0 → balance o ≡ 0
  pub adds_up : total balance holders ≡ supply

pub record IsBacked (m : Erc20) : Type 0 where
  pub bound : m.total_supply < u128_mod
  pub holders : List AccountId
  pub backs : Backs holders m.total_supply (λ o. balance_of o m)

-- An account can be taken among the holders.
pub Backs-with :
    (o : AccountId) (holders : List AccountId) (supply : ℕ) (balance : AccountId → ℕ)
    → Backs holders supply balance
    → (more : List AccountId) × Backs more supply balance
      × (count o more ≡ 1)
      × ((p : AccountId) → count p holders ≤ count p more)
unfolding total
Backs-with o holders supply balance b = elim (Bool-cases (nat_beq (count o holders) 0)) [
  | inl new ↦ (
    o ∷ holders,
    record {
      distinct = λ p. ground (arith, count-cons p o holders, bytes_eq.decides p o, b.distinct p);
      nothing = λ p h. ground (arith, count-cons p o holders, b.nothing p);
      adds_up = ground (arith, b.nothing o, b.adds_up);
    },
    ground (arith, count-cons o o holders, bytes_eq.decides o o),
    λ p. ground (arith, count-cons p o holders),
  )
  | inr old ↦ (holders, b, ground (arith, b.distinct o), λ p. omega arith)
]

-- Two functions that differ at one value of the list.
total-elsewhere :
    (f g : AccountId → ℕ) (a : AccountId) (xs : List AccountId)
    → count a xs ≡ 0
    → ((x : AccountId) → x ≢ a → f x ≡ g x)
    → total f xs ≡ total g xs
unfolding total
total-elsewhere f g a [] h same = refl
total-elsewhere f g a (x ∷ xs) h same =
    ground (arith, count-cons a x xs, bytes_eq.decides a x, same x, total-elsewhere f g a xs)

pub total-at :
    (f g : AccountId → ℕ) (a : AccountId) (xs : List AccountId)
    → count a xs ≡ 1
    → ((x : AccountId) → x ≢ a → f x ≡ g x)
    → total f xs + g a ≡ total g xs + f a
unfolding total
total-at f g a [] h same = absurd (omega (arith, count-nil a))
total-at f g a (x ∷ xs) h same = ground (
  arith,
  count-cons a x xs,
  bytes_eq.decides a x,
  same x,
  total-at f g a xs,
  total-elsewhere f g a xs,
)

pub total-member :
    (f : AccountId → ℕ) (a : AccountId) (xs : List AccountId) → 0 < count a xs → f a ≤ total f xs
unfolding total
total-member f a [] h = absurd (omega (arith, count-nil a))
total-member f a (x ∷ xs) h =
    ground (arith, count-cons a x xs, bytes_eq.decides a x, total-member f a xs)
