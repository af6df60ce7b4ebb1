-- ===== src/Contracts/Multisig/Confirm.antt =====
-- Confirmations keep the invariant of the wallet.
use ink.Prelude.{
  ℕ, ◌+◌, ◌<◌, ◌≡◌, ◌≢◌, sym, subst, Bool-cases, Option-cases, inl, inr, none, some, List, bytes_eq,
  nat_eq, nat_beq, pair_eq, if◌then◌else◌, ret, arith, ◌==◌,
}
use ink.Prelude.HashMap
use ink.Prelude.HashMap.{HashMap}
use ink.Contracts.Totals.{count, total-add_at, total-same}
use ink.Contracts.Multisig.{
  AccountId, TransactionId, Multisig, Env, Event, ConfirmationStatus, unwrap_or, confirm_by_caller,
  confirm_transaction, ensure_caller_is_owner, ensure_owner, ensure_transaction_exists,
}
use ink.Contracts.Multisig.Invariant.{
  confirmed_by, confirmed_owners, OwnersValid, TransactionsValid, ConfirmationsValid, IsValid,
}

-- The wallet with one more confirmation.
abbrev with_confirmation : TransactionId → AccountId → ℕ → Multisig → Multisig
with_confirmation t o n m = record m {
  confirmations = HashMap.insert (t, o) tt m.confirmations;
  confirmation_count = HashMap.insert t n m.confirmation_count;
}

-- The confirmations are valid, but the number for a transaction that is there may be missing.
pub record ValidBut (t : TransactionId) (m : Multisig) : Type 0 where
  pub by_owners :
      (s : TransactionId) (o : AccountId)
      → HashMap.get (s, o) m.confirmations ≢ none
      → (0 < count s m.transaction_ids) × (0 < count o m.owners)
  pub counted :
      (s : TransactionId)
      → s ≢ t
      → HashMap.get s m.confirmation_count ≡ (
          if nat_beq (count s m.transaction_ids) 0
          then none
          else some (confirmed_owners m s m.owners))
  pub counted_or_0 :
      unwrap_or 0 (HashMap.get t m.confirmation_count) ≡ confirmed_owners m t m.owners

module _ (t : TransactionId) (o : AccountId) (m : Multisig) where
  confirmed_owners-with :
      (n : ℕ) (s : TransactionId) (xs : List AccountId)
      → HashMap.get (t, o) m.confirmations ≡ none
      → confirmed_owners (with_confirmation t o n m) s xs
        ≡ (if s == t then confirmed_owners m s xs + count o xs else confirmed_owners m s xs)
  confirmed_owners-with n s xs free = elim (Bool-cases (s == t)) [
    | inl same ↦ rw same (
        total-add_at (confirmed_by (with_confirmation t o n m) s) (confirmed_by m s) o xs (λ p.
          ground (
            arith,
            HashMap.get-insert (s, p) (t, o) tt m.confirmations,
            nat_eq.decides s t,
            bytes_eq.decides p o,
          )))
    | inr other ↦ rw other (
        total-same (confirmed_by (with_confirmation t o n m) s) (confirmed_by m s) xs
          (λ p. ground (arith, HashMap.get-insert (s, p) (t, o) tt m.confirmations)))
  ]

  -- A new confirmation by an owner, of a transaction that is there.
  with_confirmation-valid :
      HashMap.get (t, o) m.confirmations ≡ none
      → 0 < count t m.transaction_ids
      → OwnersValid m.requirement m.owners m.is_owner
      → 0 < count o m.owners
      → ValidBut t m
      → ConfirmationsValid (with_confirmation t o (confirmed_owners m t m.owners + 1) m)
  with_confirmation-valid free there ow owner v = record {
    by_owners = λ s p h. ground (
      arith,
      v.by_owners s p,
      HashMap.get-insert (s, p) (t, o) tt m.confirmations,
      nat_eq.decides s t,
      bytes_eq.decides p o,
    );
    counted = λ s. ground (
      arith,
      v.counted s,
      ow.distinct o,
      HashMap.get-insert s t (confirmed_owners m t m.owners + 1) m.confirmation_count,
      nat_eq.decides s t,
      confirmed_owners-with (confirmed_owners m t m.owners + 1) s m.owners free,
    );
  }

  -- What a confirmation by an owner makes of the wallet.
  pub confirm_by_caller-IsValid :
      (status : ConfirmationStatus) (m' : Multisig) (events : List Event)
      → confirm_by_caller o t m ≡ ret (status, m', events)
      → HashMap.get (t, o) m.confirmations ≡ none
      → 0 < count t m.transaction_ids
      → OwnersValid m.requirement m.owners m.is_owner
      → TransactionsValid m.transactions m.transaction_ids m.next_id
      → 0 < count o m.owners
      → ValidBut t m
      → IsValid m'
  unfolding confirm_by_caller
  confirm_by_caller-IsValid status m' events run free there ow tr owner v =
      let n = confirmed_owners m t m.owners in
      let same : with_confirmation t o (n + 1) m ≡ m' = ground (arith, v.counted_or_0) in
      let now = with_confirmation-valid free there ow owner v in
      subst IsValid same (record { owners = ow; transactions = tr; confirmations = now })

  confirm_by_caller-again :
      (status : ConfirmationStatus) (m' : Multisig) (events : List Event)
      → confirm_by_caller o t m ≡ ret (status, m', events)
      → HashMap.get (t, o) m.confirmations ≢ none
      → m' ≡ m
  unfolding confirm_by_caller
  confirm_by_caller-again status m' events run taken = ground arith

ValidBut-valid :
    (t : TransactionId) (m : Multisig)
    → 0 < count t m.transaction_ids
    → ConfirmationsValid m
    → ValidBut t m
ValidBut-valid t m there v = record {
  by_owners = v.by_owners;
  counted = λ s other. v.counted s;
  counted_or_0 = ground (arith, v.counted t);
}

-- `confirm_transaction` keeps the invariant.
pub confirm_transaction-IsValid :
    (env : Env) (t : TransactionId) (m m' : Multisig) (status : ConfirmationStatus)
    (events : List Event)
    → IsValid m
    → confirm_transaction env t m ≡ ret (status, m', events)
    → IsValid m'
unfolding confirm_transaction ensure_caller_is_owner ensure_owner ensure_transaction_exists
confirm_transaction-IsValid env t m m' status events v run =
    let there : 0 < count t m.transaction_ids = ground (arith, v.transactions.listed t) in
    let owner : 0 < count env.caller m.owners = ground (arith, v.owners.known env.caller) in
    let confirmed : confirm_by_caller env.caller t m ≡ ret (status, m', events) = ground arith in
    elim (Option-cases (HashMap.get (t, env.caller) m.confirmations)) [
      | inl free ↦
          confirm_by_caller-IsValid t env.caller m status m' events confirmed free there v.owners
            v.transactions owner (ValidBut-valid t m there v.confirmations)
      | inr (u, taken) ↦
          subst IsValid
            (sym (confirm_by_caller-again t env.caller m status m' events confirmed (ground arith)))
            v
    ]
