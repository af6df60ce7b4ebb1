-- ===== src/Contracts/Multisig/Submit.antt =====
-- A new transaction keeps the invariant of the wallet.
use ink.Prelude.{
  ◌+◌, ◌<◌, ◌≡◌, refl, Option-cases, inl, inr, none, List, [], ◌∷◌, ◌++◌, bytes_eq, nat_eq, pair_eq,
  if◌then◌else◌, ret, arith, ◌==◌, Outcome-cases,
}
use ink.Prelude.HashMap
use ink.Prelude.HashMap.{HashMap}
use ink.Contracts.Totals.{total, count, total-push, total-zero}
use ink.Contracts.Multisig.{
  AccountId, TransactionId, Transaction, Multisig, Env, Event, ConfirmationStatus,
  confirm_by_caller, submit_transaction, ensure_caller_is_owner, ensure_owner,
}
use ink.Contracts.Multisig.Invariant.{confirmed_by, TransactionsValid, IsValid}
use ink.Contracts.Multisig.Confirm.{ValidBut, confirm_by_caller-IsValid}

-- The wallet with one more transaction.
abbrev with_transaction : Transaction → Multisig → Multisig
with_transaction transaction m = record m {
  next_id = m.next_id + 1;
  transactions = HashMap.insert m.next_id transaction m.transactions;
  transaction_ids = m.transaction_ids ++ m.next_id ∷ [];
}

submit_transaction-confirms :
    (env : Env) (transaction : Transaction) (m m' : Multisig)
    (r : TransactionId × ConfirmationStatus) (events : List Event)
    → submit_transaction env transaction m ≡ ret (r, m', events)
    → (later : List Event) × (confirm_by_caller env.caller m.next_id
          (with_transaction transaction m)
        ≡ ret (r.1, m', later))
unfolding submit_transaction
submit_transaction-confirms env transaction m m' r events run =
    elim (Outcome-cases (confirm_by_caller env.caller m.next_id (with_transaction transaction m))) [
      | inl p ↦ absurd (ground arith)
      | inr (x, e) ↦ (x.2, ground arith)
    ]

module _ (m : Multisig) (v : IsValid m) where
  -- A new number is not in the list, and nobody has confirmed it.
  unlisted : count m.next_id m.transaction_ids ≡ 0
  unlisted = ground (arith, v.transactions.below m.next_id)

  unconfirmed : (o : AccountId) → HashMap.get (m.next_id, o) m.confirmations ≡ none
  unconfirmed o = elim (Option-cases (HashMap.get (m.next_id, o) m.confirmations)) [
    | inl e ↦ e
    | inr (u, e) ↦
        let there = v.confirmations.by_owners m.next_id o (ground arith) in
        absurd (omega (arith, unlisted, there.0))
  ]

  count-with :
      (s : TransactionId)
      → count s (m.transaction_ids ++ m.next_id ∷ [])
        ≡ count s m.transaction_ids + (if s == m.next_id then 1 else 0)
  count-with s = total-push (λ x. if s == x then 1 else 0) m.transaction_ids m.next_id

  with_transaction-listed :
      (transaction : Transaction)
      → TransactionsValid
          (HashMap.insert m.next_id transaction m.transactions)
          (m.transaction_ids ++ m.next_id ∷ [])
          (m.next_id + 1)
  with_transaction-listed transaction = record {
    distinct = λ s.
        ground
          (arith, count-with s, unlisted, v.transactions.distinct s, nat_eq.decides s m.next_id);
    listed = λ s. ground (
      arith,
      count-with s,
      v.transactions.listed s,
      HashMap.get-insert s m.next_id transaction m.transactions,
      nat_eq.decides s m.next_id,
    );
    below = λ s h. ground (arith, count-with s, v.transactions.below s, nat_eq.decides s m.next_id);
  }

  with_transaction-ValidBut :
      (transaction : Transaction) → ValidBut m.next_id (with_transaction transaction m)
  with_transaction-ValidBut transaction = record {
    by_owners = λ s o h. ground (arith, count-with s, v.confirmations.by_owners s o h);
    counted = λ s other.
        ground (arith, count-with s, v.confirmations.counted s, nat_eq.decides s m.next_id);
    counted_or_0 =
        let none_yet : total (confirmed_by m m.next_id) m.owners ≡ 0 =
          total-zero (confirmed_by m m.next_id) m.owners (λ o. rw (unconfirmed o) refl) in
        ground (arith, v.confirmations.counted m.next_id, unlisted, none_yet);
  }

-- `submit_transaction` keeps the invariant.
pub submit_transaction-IsValid :
    (env : Env) (transaction : Transaction) (m m' : Multisig)
    (r : TransactionId × ConfirmationStatus) (events : List Event)
    → IsValid m
    → submit_transaction env transaction m ≡ ret (r, m', events)
    → IsValid m'
unfolding submit_transaction ensure_caller_is_owner ensure_owner
submit_transaction-IsValid env transaction m m' r events v run =
    let (later, confirmed) = submit_transaction-confirms env transaction m m' r events run in
    let owner : 0 < count env.caller m.owners = ground (arith, v.owners.known env.caller) in
    let there : 0 < count m.next_id (m.transaction_ids ++ m.next_id ∷ []) =
      ground (arith, count-with m v m.next_id, nat_eq.decides m.next_id m.next_id) in
    confirm_by_caller-IsValid m.next_id env.caller (with_transaction transaction m) r.1 m' later
      confirmed (unconfirmed m v env.caller) there v.owners
      (with_transaction-listed m v transaction) owner (with_transaction-ValidBut m v transaction)
