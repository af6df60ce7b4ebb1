-- ===== src/Contracts/Multisig/Revoke.antt =====
-- Revocations and the removal of transactions keep the invariant of the wallet.
use ink.Prelude.{
  ℕ, ◌+◌, ◌-◌, ◌≤◌, ◌≡◌, ◌≢◌, subst, Bool-cases, Option-cases, inl, inr, none, some, List, bytes_eq,
  nat_eq, pair_eq, if◌then◌else◌, ret, arith, ◌==◌,
}
use ink.Prelude.HashMap
use ink.Prelude.HashMap.{HashMap}
use ink.Contracts.Totals.{count, total-add_at, total-same}
use ink.Contracts.Multisig.{AccountId, TransactionId, Multisig, Env, Event, revoke_confirmation}
use ink.Contracts.Multisig.Invariant.{confirmed_by, confirmed_owners, IsValid}

-- The wallet with one confirmation less.
abbrev without_confirmation : TransactionId → AccountId → ℕ → Multisig → Multisig
without_confirmation t o n m = record m {
  confirmations = HashMap.remove (t, o) m.confirmations;
  confirmation_count = HashMap.insert t n m.confirmation_count;
}

module _ (t : TransactionId) (o : AccountId) (m : Multisig) (v : IsValid m) where
  confirmed_owners-without :
      (n : ℕ) (s : TransactionId) (xs : List AccountId)
      → HashMap.get (t, o) m.confirmations ≢ none
      → confirmed_owners m s xs ≡ (
          if s == t
          then confirmed_owners (without_confirmation t o n m) s xs + count o xs
          else confirmed_owners (without_confirmation t o n m) s xs)
  confirmed_owners-without n s xs taken = elim (Bool-cases (s == t)) [
    | inl same ↦ rw same (
        total-add_at (confirmed_by m s) (confirmed_by (without_confirmation t o n m) s) o xs (λ p.
          ground (
            arith,
            HashMap.get-remove (s, p) (t, o) m.confirmations,
            nat_eq.decides s t,
            bytes_eq.decides p o,
          )))
    | inr other ↦ rw other (
        total-same (confirmed_by m s) (confirmed_by (without_confirmation t o n m) s) xs
          (λ p. ground (arith, HashMap.get-remove (s, p) (t, o) m.confirmations)))
  ]

  without_confirmation-IsValid :
      (n : ℕ)
      → HashMap.get (t, o) m.confirmations ≢ none
      → n + 1 ≡ confirmed_owners m t m.owners
      → IsValid (without_confirmation t o n m)
  without_confirmation-IsValid n taken one_less =
      let (there, owner) = v.confirmations.by_owners t o taken in
      record {
        owners = v.owners;
        transactions = v.transactions;
        confirmations = record {
          by_owners = λ s p h. ground (
            arith,
            v.confirmations.by_owners s p,
            HashMap.get-remove (s, p) (t, o) m.confirmations,
          );
          counted = λ s. ground (
            arith,
            v.confirmations.counted s,
            v.owners.distinct o,
            HashMap.get-insert s t n m.confirmation_count,
            nat_eq.decides s t,
            confirmed_owners-without n s m.owners taken,
          );
        };
      }

-- `revoke_confirmation` keeps the invariant.
pub revoke_confirmation-IsValid :
    (env : Env) (t : TransactionId) (m m' : Multisig) (u : Unit {0}) (events : List Event)
    → IsValid m
    → revoke_confirmation env t m ≡ ret (u, m', events)
    → IsValid m'
unfolding revoke_confirmation
revoke_confirmation-IsValid env t m m' u events v run =
    elim (Option-cases (HashMap.get (t, env.caller) m.confirmations)) [
      | inl free ↦ let same : m ≡ m' = ground arith in subst IsValid same v
      | inr (w, taken) ↦
          let is_taken : HashMap.get (t, env.caller) m.confirmations ≢ none = ground arith in
          let (there, owner) = v.confirmations.by_owners t env.caller is_taken in
          let n = confirmed_owners m t m.owners in
          let now : HashMap.get t m.confirmation_count ≡ some n =
            ground (arith, v.confirmations.counted t) in
          let same : without_confirmation t env.caller (n - 1) m ≡ m' = ground arith in
          let some_left : 1 ≤ n = ground arith in
          subst IsValid same
            (without_confirmation-IsValid t env.caller m v (n - 1) is_taken (omega arith))
    ]
