-- ===== src/Contracts/Multisig/Reentry.antt =====
-- What a call that comes back to the wallet leaves of it.
use ink.Prelude.{
  ◌≤◌, ◌≡◌, refl, ◌∙◌, Option, none, some, List, [], ◌∷◌, Bytes, bytes_eq, nat_eq, pair_eq, ret,
  arith, beq_refl,
}
use ink.Prelude.HashMap
use ink.Prelude.HashMap.{HashMap}
use ink.Contracts.Totals.{count}
use ink.Contracts.Multisig.{
  AccountId, TransactionId, Transaction, Multisig, Env, Event, ensure_no_owner, take_transaction,
  add_owner,
}
use ink.Contracts.Multisig.Invariant.{confirmed_owners, IsValid}
use ink.Prelude.Result.{ok}
use ink.Contracts.Multisig.Take.{take_transaction-IsValid}
use ink.Contracts.Multisig.Invoke.{on_chain, resume, invoke_transaction}
use ink.Contracts.Multisig.Execute.{invoke_transaction_steps}

added-is_owner :
    (env : Env) (new_owner : AccountId) (m k : Multisig) (u : Unit {0}) (events : List Event)
    → add_owner env new_owner m ≡ ret (u, k, events)
    → (k.is_owner ≡ HashMap.insert new_owner tt m.is_owner)
      × (HashMap.get new_owner m.is_owner ≡ none)
unfolding add_owner ensure_no_owner
added-is_owner env new_owner m k u events run = (ground arith, ground arith)

-- An owner whom a valid wallet adds by a transaction of its own that enough owners have confirmed, in
-- a call of itself that `invoke_transaction` makes with the value sent, is one by `is_owner`, but is
-- not in the list of owners: the message ends with the list that it has loaded, and the wallet is not
-- valid.
pub invoke_transaction-loses_owner :
    (call : Transaction → Multisig → Option Bytes × Multisig) (env inner : Env) (t : TransactionId)
    (x : Transaction) (new_owner : AccountId) (m n k : Multisig) (answer : Bytes)
    (events : List Event)
    → IsValid m
    → HashMap.get t m.transactions ≡ some x
    → m.requirement ≤ confirmed_owners m t m.owners
    → env.transferred_value ≡ x.transferred_value
    → take_transaction t m ≡ ret (some x, n)
    → call x (on_chain m n) ≡ (some answer, k)
    → add_owner inner new_owner (on_chain m n) ≡ ret (tt, k, events)
    → (m' : Multisig) × (invoke_transaction call env t m
        ≡ ret (ok tt, m', Event.execution t (ok none) ∷ []))
      × (HashMap.get new_owner m'.is_owner ≡ some tt)
      × (count new_owner m'.owners ≡ 0)
      × (IsValid m' → ⊥)
invoke_transaction-loses_owner call env inner t x new_owner m n k answer events v there enough value
      taken called added =
    let (n', taken', gone, unlisted, ran) =
      invoke_transaction_steps call env t x m v there enough value in
    let same : n' ≡ n = ground (arith, taken, taken') in
    let valid = take_transaction-IsValid t m n (some x) v taken in
    let (inserted, was_new) = added-is_owner inner new_owner (on_chain m n) k tt events added in
    let in_map : HashMap.get new_owner k.is_owner ≡ some tt =
      rw inserted
        (HashMap.get-insert new_owner new_owner tt n.is_owner ∙ rw (beq_refl new_owner) refl) in
    let not_listed : count new_owner n.owners ≡ 0 = ground (arith, valid.owners.known new_owner) in
    (
      resume n k,
      ground (arith, ran, same, called),
      in_map,
      not_listed,
      (λ w. ground (arith, w.owners.known new_owner, in_map, not_listed)),
    )
