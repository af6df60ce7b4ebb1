-- ===== src/Contracts/Multisig/Take.antt =====
-- The removal of transactions keeps the invariant of the wallet.
use ink.Prelude.{
  ℕ, ◌+◌, ◌<◌, ◌≡◌, sym, subst, false, Option-cases, inl, inr, Option, none, some, List, [], ◌∷◌,
  length, bytes_eq, nat_eq, nat_beq, pair_eq, if◌then◌else◌, ret, arith, ◌==◌, Outcome-cases,
}
use ink.Prelude.HashMap
use ink.Prelude.HashMap.{HashMap}
use ink.Contracts.Totals.{
  count, total-same, count-nil, count-cons, total-swapped, swapped, position, swap_remove,
  position-some,
}
use ink.Contracts.Multisig.{
  AccountId, TransactionId, Transaction, Multisig, Env, Event, take_transaction, take_found,
  remove_confirmations, cancel_transaction,
}
use ink.Contracts.Multisig.Invariant.{confirmed_by, confirmed_owners, IsValid}

get-remove_confirmations :
    (t s : TransactionId) (p : AccountId) (os : List AccountId)
    (c : HashMap (TransactionId × AccountId) (Unit {0}))
    → HashMap.get (s, p) (remove_confirmations t os c) ≡ (
        if s == t
        then (if nat_beq (count p os) 0 then HashMap.get (s, p) c else none)
        else HashMap.get (s, p) c)
unfolding remove_confirmations
get-remove_confirmations t s p [] c = ground (arith, count-nil p)
get-remove_confirmations t s p (o ∷ os) c = ground (
  arith,
  count-cons p o os,
  bytes_eq.decides p o,
  nat_eq.decides s t,
  HashMap.get-remove (s, p) (t, o) c,
  get-remove_confirmations t s p os (HashMap.remove (t, o) c),
)

-- The wallet without a transaction.
abbrev pub without_transaction : TransactionId → ℕ → Multisig → Multisig
without_transaction t pos m = record m {
  transactions = HashMap.remove t m.transactions;
  transaction_ids = swapped pos m.transaction_ids;
  confirmations = remove_confirmations t m.owners m.confirmations;
  confirmation_count = HashMap.remove t m.confirmation_count;
}

take_found-state :
    (t : TransactionId) (m m' : Multisig) (r : Option Transaction) (pos : ℕ)
    → position t m.transaction_ids ≡ some pos
    → take_found t m ≡ ret (r, m')
    → m' ≡ without_transaction t pos m
unfolding take_found swap_remove
take_found-state t m m' r pos at run = ground arith

module _ (t : TransactionId) (pos : ℕ) (m : Multisig) (v : IsValid m)
    (at : position t m.transaction_ids ≡ some pos) where
  count-left :
      (s : TransactionId)
      → count s (swapped pos m.transaction_ids) + (if s == t then 1 else 0)
        ≡ count s m.transaction_ids
  count-left s = total-swapped (λ x. if s == x then 1 else 0) t m.transaction_ids pos at

  -- Only owners have confirmed, so that no confirmation of the transaction is left.
  confirmation-left :
      (s : TransactionId) (p : AccountId)
      → HashMap.get (s, p) (remove_confirmations t m.owners m.confirmations)
        ≡ (if s == t then none else HashMap.get (s, p) m.confirmations)
  confirmation-left s p = ground (
    arith,
    get-remove_confirmations t s p m.owners m.confirmations,
    v.confirmations.by_owners s p,
  )

  confirmed_owners-left :
      (s : TransactionId)
      → (s == t) ≡ false
      → confirmed_owners (without_transaction t pos m) s m.owners ≡ confirmed_owners m s m.owners
  confirmed_owners-left s other =
      total-same (confirmed_by (without_transaction t pos m) s) (confirmed_by m s) m.owners
        (λ p. ground (arith, confirmation-left s p))

  without_transaction-IsValid : IsValid (without_transaction t pos m)
  without_transaction-IsValid = record {
    owners = v.owners;
    transactions = record {
      distinct = λ s. ground (arith, count-left s, v.transactions.distinct s);
      listed = λ s. ground (
        arith,
        count-left s,
        v.transactions.listed s,
        v.transactions.distinct s,
        HashMap.get-remove s t m.transactions,
        nat_eq.decides s t,
      );
      below = λ s h. ground (arith, count-left s, v.transactions.below s);
    };
    confirmations = record {
      by_owners = λ s p h.
          ground (arith, count-left s, confirmation-left s p, v.confirmations.by_owners s p);
      counted = λ s. ground (
        arith,
        count-left s,
        v.transactions.distinct s,
        v.confirmations.counted s,
        HashMap.get-remove s t m.confirmation_count,
        confirmed_owners-left s,
        nat_eq.decides s t,
      );
    };
  }

-- `take_transaction` keeps the invariant.
pub take_transaction-IsValid :
    (t : TransactionId) (m m' : Multisig) (r : Option Transaction)
    → IsValid m
    → take_transaction t m ≡ ret (r, m')
    → IsValid m'
unfolding take_transaction
take_transaction-IsValid t m m' r v run = elim (Option-cases (HashMap.get t m.transactions)) [
  | inl missing ↦ let same : m ≡ m' = ground arith in subst IsValid same v
  | inr (found, there) ↦
      let taken : take_found t m ≡ ret (r, m') = ground arith in
      let listed : 0 < count t m.transaction_ids = ground (arith, v.transactions.listed t) in
      let (pos, at, below) = position-some t m.transaction_ids listed in
      subst IsValid (sym (take_found-state t m m' r pos at taken))
        (without_transaction-IsValid t pos m v at)
]

-- `cancel_transaction` keeps the invariant.
pub cancel_transaction-IsValid :
    (env : Env) (t : TransactionId) (m m' : Multisig) (u : Unit {0}) (events : List Event)
    → IsValid m
    → cancel_transaction env t m ≡ ret (u, m', events)
    → IsValid m'
unfolding cancel_transaction
cancel_transaction-IsValid env t m m' u events v run = elim (Outcome-cases (take_transaction t m)) [
  | inl p ↦ absurd (ground arith)
  | inr (x, taken) ↦
      let same : x.1 ≡ m' = ground arith in
      subst IsValid same (take_transaction-IsValid t m x.1 x.0 v taken)
]

-- What taking a transaction that is there makes of the wallet.
pub take_transaction_runs :
    (t : TransactionId) (x : Transaction) (m : Multisig) (pos : ℕ)
    → HashMap.get t m.transactions ≡ some x
    → position t m.transaction_ids ≡ some pos
    → pos < length m.transaction_ids
    → take_transaction t m ≡ ret (some x, without_transaction t pos m)
unfolding take_transaction take_found swap_remove
take_transaction_runs t x m pos there at below = ground arith
