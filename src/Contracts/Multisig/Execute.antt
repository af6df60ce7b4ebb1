-- ===== src/Contracts/Multisig/Execute.antt =====
-- The execution of transactions: it succeeds once enough owners have confirmed, and what a call that
-- comes back to the wallet does.
use ink.Prelude.{
  ◌≤◌, ◌<◌, ◌≡◌, ◌≢◌, ◌↔◌, sym, ap, subst, ◌∙◌, Option-cases, inl, inr, Option, none, some, List,
  [], ◌∷◌, Bytes, bytes_eq, nat_eq, pair_eq, if◌then◌else◌, ret, arith, ◌==◌, Outcome-cases,
}
use ink.Prelude.HashMap
use ink.Prelude.HashMap.{HashMap}
use ink.Contracts.Totals.{count, total-swapped, position-some}
use ink.Contracts.Multisig.{TransactionId, Transaction, Multisig, Env, Event, take_transaction}
use ink.Contracts.Multisig.Invariant.{confirmed_owners, IsValid}
use ink.Prelude.Result.{ok, Result}
use ink.Contracts.Multisig.{Error, ensure_confirmed}
use ink.Contracts.Multisig.Take.{
  take_transaction-IsValid, take_transaction_runs, without_transaction,
}
use ink.Contracts.Multisig.Invoke.{
  on_chain, resume, result_of, without_value, event_of_invoke, invoke_transaction, eval_transaction,
}

-- The call leaves the wallet as it is.
abbrev pub Quiet : (Transaction → Multisig → Option Bytes × Multisig) → Type 0
Quiet call = (t : Transaction) (m : Multisig) → (call t m).1 ≡ m

ok_iff : (answer : Option Bytes) → (without_value (result_of answer) ≡ ok tt) ↔ (answer ≢ none)
ok_iff none = ground arith
ok_iff (some v) = ground arith

module _ (call : Transaction → Multisig → Option Bytes × Multisig) where
  -- The transaction that is taken out, and the state that the message ends in.
  invoke_transaction-parts :
      (env : Env) (t : TransactionId) (m m' : Multisig) (r : Result (Unit {0}) Error)
      (events : List Event)
      → invoke_transaction call env t m ≡ ret (r, m', events)
      → (x : Transaction) × (n : Multisig) × (take_transaction t m ≡ ret (some x, n))
        × (resume n (call x (on_chain m n)).1 ≡ m')
  unfolding invoke_transaction
  invoke_transaction-parts env t m m' r events run = elim (Outcome-cases (take_transaction t m)) [
    | inl p ↦ absurd (ground arith)
    | inr (taken, e) ↦ elim (Option-cases taken.0) [
      | inl missing ↦ absurd (ground arith)
      | inr (x, found) ↦ (x, taken.1, ground arith, ground arith)
    ]
  ]

  eval_transaction-parts :
      (t : TransactionId) (m m' : Multisig) (r : Result Bytes Error) (events : List Event)
      → eval_transaction call t m ≡ ret (r, m', events)
      → (x : Transaction) × (n : Multisig) × (take_transaction t m ≡ ret (some x, n))
        × (resume n (call x (on_chain m n)).1 ≡ m')
  unfolding eval_transaction
  eval_transaction-parts t m m' r events run = elim (Outcome-cases (take_transaction t m)) [
    | inl p ↦ absurd (ground arith)
    | inr (taken, e) ↦ elim (Option-cases taken.0) [
      | inl missing ↦ absurd (ground arith)
      | inr (x, found) ↦ (x, taken.1, ground arith, ground arith)
    ]
  ]

  module _ (quiet : Quiet call) where
    quiet-IsValid :
        (t : TransactionId) (x : Transaction) (m n m' : Multisig)
        → IsValid m
        → take_transaction t m ≡ ret (some x, n)
        → resume n (call x (on_chain m n)).1 ≡ m'
        → IsValid m'
    quiet-IsValid t x m n m' v taken ended =
        let same : n ≡ m' = ap (λ a. resume n a) (sym (quiet x (on_chain m n))) ∙ ended in
        subst IsValid same (take_transaction-IsValid t m n (some x) v taken)

    -- `invoke_transaction` and `eval_transaction` keep the invariant, where the call leaves the
    -- wallet as it is.
    pub invoke_transaction-IsValid :
        (env : Env) (t : TransactionId) (m m' : Multisig) (r : Result (Unit {0}) Error)
        (events : List Event)
        → IsValid m
        → invoke_transaction call env t m ≡ ret (r, m', events)
        → IsValid m'
    invoke_transaction-IsValid env t m m' r events v run =
        let (x, n, taken, ended) = invoke_transaction-parts env t m m' r events run in
        quiet-IsValid t x m n m' v taken ended

    pub eval_transaction-IsValid :
        (t : TransactionId) (m m' : Multisig) (r : Result Bytes Error) (events : List Event)
        → IsValid m
        → eval_transaction call t m ≡ ret (r, m', events)
        → IsValid m'
    eval_transaction-IsValid t m m' r events v run =
        let (x, n, taken, ended) = eval_transaction-parts t m m' r events run in
        quiet-IsValid t x m n m' v taken ended

  -- What a message on a transaction that can be executed does: it takes the transaction out, and makes
  -- the call on the wallet without it.
  pub invoke_transaction_steps :
      (env : Env) (t : TransactionId) (x : Transaction) (m : Multisig)
      → IsValid m
      → HashMap.get t m.transactions ≡ some x
      → m.requirement ≤ confirmed_owners m t m.owners
      → env.transferred_value ≡ x.transferred_value
      → (n : Multisig) × (take_transaction t m ≡ ret (some x, n))
        × (HashMap.get t n.transactions ≡ none)
        × (count t n.transaction_ids ≡ 0)
        × (let (answer, after) = call x (on_chain m n) in
            invoke_transaction call env t m
            ≡ ret (
              without_value (result_of answer),
              resume n after,
              Event.execution t (event_of_invoke (result_of answer)) ∷ [],
            ))
  unfolding invoke_transaction ensure_confirmed
  invoke_transaction_steps env t x m v there enough value =
      let listed : 0 < count t m.transaction_ids = ground (arith, v.transactions.listed t) in
      let (pos, at, below) = position-some t m.transaction_ids listed in
      let n = without_transaction t pos m in
      let taken : take_transaction t m ≡ ret (some x, n) =
        take_transaction_runs t x m pos there at below in
      let counted : HashMap.get t m.confirmation_count ≡ some (confirmed_owners m t m.owners) =
        ground (arith, v.confirmations.counted t) in
      let left = total-swapped (λ y. if t == y then 1 else 0) t m.transaction_ids pos at in
      (
        n,
        taken,
        ground (arith, HashMap.get-remove t t m.transactions, nat_eq.decides t t),
        ground (arith, left, v.transactions.distinct t, nat_eq.decides t t),
        ground arith,
      )

  -- In a valid wallet, a transaction that is there and that as many owners have confirmed as are
  -- required is executed by anyone who sends its value: the message takes it out, makes the call on
  -- the wallet without it, and returns without a panic, `Ok` exactly if the call succeeds. The wallet
  -- that it ends with, which is kept where it returns `Ok`, no longer has the transaction, if no call
  -- puts back a transaction that is not there.
  pub invoke_transaction_runs :
      (env : Env) (t : TransactionId) (x : Transaction) (m : Multisig)
      → ((y : Transaction) (w : Multisig)
          → HashMap.get t w.transactions ≡ none
          → HashMap.get t (call y w).1.transactions ≡ none)
      → IsValid m
      → HashMap.get t m.transactions ≡ some x
      → m.requirement ≤ confirmed_owners m t m.owners
      → env.transferred_value ≡ x.transferred_value
      → (n : Multisig) × (take_transaction t m ≡ ret (some x, n))
        × (let result = result_of (call x (on_chain m n)).0 in
            let ended = resume n (call x (on_chain m n)).1 in
            (invoke_transaction call env t m
              ≡ ret (without_value result, ended, Event.execution t (event_of_invoke result) ∷ []))
            × ((without_value result ≡ ok tt) ↔ ((call x (on_chain m n)).0 ≢ none))
            × (HashMap.get t ended.transactions ≡ none)
            × (count t ended.transaction_ids ≡ 0))
  invoke_transaction_runs env t x m gone_stays v there enough value =
      let (n, taken, gone, unlisted, ran) =
        invoke_transaction_steps env t x m v there enough value in
      (
        n,
        taken,
        (ran, ok_iff (call x (on_chain m n)).0, gone_stays x (on_chain m n) gone, unlisted),
      )
