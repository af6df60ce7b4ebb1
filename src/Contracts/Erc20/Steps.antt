-- ===== src/Contracts/Erc20/Steps.antt =====
-- The token as a state machine, integration-tests/erc20/lib.rs: the messages that anyone sends.
use ink.Prelude.{
  ℕ, ◌≤◌, ◌<◌, ◌≡◌, sym, subst, List, [], ◌∷◌, bytes_eq, pair_eq, arith, Bool-cases, inl, inr, ltb,
  ret,
}
use ink.Engine.Host.{u128_mod}
use ink.Prelude.HashMap
use ink.Prelude.HashMap.{HashMap}
use ink.Prelude.Result.{Result}
use ink.Contracts.Totals.{total, count-cons, count-nil}
use ink.Contracts.Erc20.{
  AccountId, Erc20, Event, Error, balance_of, allowance, new, transfer_from_to, transfer, approve,
  transfer_from,
}
use ink.Contracts.Erc20.Balances.{Backs, IsBacked}
use ink.Contracts.Erc20.Transfers.{Moved, Moved-Backs, transfer_from_to_lem, transfer_from_lem}

-- A message that does not panic. One that panics changes nothing.
pub data Step : Erc20 → Erc20 → Type 0 where
  send :
      (caller to : AccountId) (value : ℕ) (r : Result (Unit {0}) Error) (events : List Event)
      (m m' : Erc20)
      → transfer caller to value m ≡ ret (r, m', events)
      → Step m m'
  allow :
      (caller spender : AccountId) (value : ℕ) (r : Result (Unit {0}) Error) (events : List Event)
      (m m' : Erc20)
      → approve caller spender value m ≡ ret (r, m', events)
      → Step m m'
  send_from :
      (caller from to : AccountId) (value : ℕ) (r : Result (Unit {0}) Error) (events : List Event)
      (m m' : Erc20)
      → transfer_from caller from to value m ≡ ret (r, m', events)
      → Step m m'

pub data Reach (start : Erc20) : Erc20 → Type 0 where
  here : Reach start start
  next : {m n : Erc20} → Reach start m → Step m n → Reach start n

Moved-IsBacked :
    (from to : AccountId) (value : ℕ) (m m' : Erc20)
    → IsBacked m
    → value ≤ balance_of from m
    → Moved from to value m m'
    → m'.total_supply ≡ m.total_supply
    → IsBacked m'
Moved-IsBacked from to value m m' b enough moved supply =
    let (hs, backs) =
      Moved-Backs from to value m m' b.holders m.total_supply b.backs enough moved in
    record {
      bound = rw supply b.bound;
      holders = hs;
      backs = subst (λ s. Backs hs s (λ o. balance_of o m')) (sym supply) backs;
    }

transfer_from_to-IsBacked :
    (from to : AccountId) (value : ℕ) (m m' : Erc20) (r : Result (Unit {0}) Error)
    (events : List Event)
    → IsBacked m
    → transfer_from_to from to value m ≡ ret (r, m', events)
    → IsBacked m'
unfolding transfer_from_to
transfer_from_to-IsBacked from to value m m' r events b run =
    elim (Bool-cases (ltb (balance_of from m) value)) [
      | inl small ↦ let same : m ≡ m' = ground arith in subst IsBacked same b
      | inr enough ↦
          let (n, runs, moved, supply, _) = transfer_from_to_lem from to value m b (ground arith) in
          let same : n ≡ m' = ground arith in
          subst IsBacked same (Moved-IsBacked from to value m n b (ground arith) moved supply)
    ]

transfer_from-IsBacked :
    (caller from to : AccountId) (value : ℕ) (m m' : Erc20) (r : Result (Unit {0}) Error)
    (events : List Event)
    → IsBacked m
    → transfer_from caller from to value m ≡ ret (r, m', events)
    → IsBacked m'
transfer_from-IsBacked caller from to value m m' r events b run =
    let (r', n, events', runs, outcome) = transfer_from_lem caller from to value m b in
    let same : n ≡ m' = ground (arith, run, runs) in
    subst IsBacked same (elim (Bool-cases (ltb (allowance from caller m) value)) [
      | inl small ↦ subst IsBacked (sym (rw small at outcome).1) b
      | inr allowed ↦ elim (Bool-cases (ltb (balance_of from m) value)) [
        | inl few ↦ subst IsBacked (sym (rw (allowed, few) at outcome).1) b
        | inr enough ↦
            let spent = rw (allowed, enough) at outcome in
            Moved-IsBacked from to value m n b (ground arith) spent.moved spent.supply
      ]
    ])

Step-IsBacked : {m n : Erc20} → Step m n → IsBacked m → IsBacked n
unfolding transfer approve
Step-IsBacked (send caller to value r events m m' run) b =
    transfer_from_to-IsBacked caller to value m m' r events b run
Step-IsBacked (allow caller spender value r events m m' run) b =
    let same : record m { allowances = HashMap.insert (caller, spender) value m.allowances } ≡ m' =
      ground (arith, run) in
    subst IsBacked same (record { bound = b.bound; holders = b.holders; backs = b.backs })
Step-IsBacked (send_from caller from to value r events m m' run) b =
    transfer_from-IsBacked caller from to value m m' r events b run

Reach-keeps : {start m : Erc20} → IsBacked start → Reach start m → IsBacked m
Reach-keeps b here = b
Reach-keeps b (next r s) = Step-IsBacked s (Reach-keeps b r)

new-IsBacked :
    (caller : AccountId) (total_supply : ℕ)
    → total_supply < u128_mod
    → IsBacked (new caller total_supply).0
unfolding new total
new-IsBacked caller total_supply bound = record {
  bound = bound;
  holders = caller ∷ [];
  backs = record {
    distinct = λ o. ground (arith, count-cons o caller [], count-nil o);
    nothing = λ o h. ground (
      arith,
      count-cons o caller [],
      HashMap.get-insert o caller total_supply [],
      HashMap.get-empty {V = ℕ} o,
      bytes_eq.decides o caller,
    );
    adds_up =
        ground
          (arith, HashMap.get-insert caller caller total_supply [], bytes_eq.decides caller caller);
  };
}

-- In every token that messages reach from a new one, of a supply below 2 ^ 128, the balances add up
-- to the supply: some accounts, each once, hold all of it, and the others hold nothing.
pub Reach-IsBacked :
    (caller : AccountId) (total_supply : ℕ) (m : Erc20)
    → total_supply < u128_mod
    → Reach (new caller total_supply).0 m
    → IsBacked m
Reach-IsBacked caller total_supply m bound r =
    Reach-keeps (new-IsBacked caller total_supply bound) r
