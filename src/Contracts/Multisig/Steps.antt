-- ===== src/Contracts/Multisig/Steps.antt =====
-- The wallet as a state machine: the messages that anyone sends, in any order.
use ink.Prelude.{ℕ, ◌<◌, ◌≡◌, Option, List, length, Bytes, bytes_eq, nat_eq, pair_eq, ret}
use ink.Contracts.Multisig.{
  AccountId, TransactionId, Transaction, Multisig, Env, Event, ConfirmationStatus,
  revoke_confirmation, confirm_transaction, submit_transaction, add_owner, remove_owner,
  replace_owner, change_requirement, cancel_transaction,
}
use ink.Contracts.Multisig.Invariant.{IsValid}
use ink.Prelude.Result.{Result}
use ink.Contracts.Multisig.{Error, u32_mod}
use ink.Contracts.Multisig.Invoke.{invoke_transaction, eval_transaction}
use ink.Contracts.Multisig.New.{new, new-IsValid}
use ink.Contracts.Multisig.Confirm.{confirm_transaction-IsValid}
use ink.Contracts.Multisig.Submit.{submit_transaction-IsValid}
use ink.Contracts.Multisig.Revoke.{revoke_confirmation-IsValid}
use ink.Contracts.Multisig.Take.{cancel_transaction-IsValid}
use ink.Contracts.Multisig.Owners.{add_owner-IsValid, change_requirement-IsValid}
use ink.Contracts.Multisig.Remove.{remove_owner-IsValid}
use ink.Contracts.Multisig.Replace.{replace_owner-IsValid}
use ink.Contracts.Multisig.Execute.{Quiet, invoke_transaction-IsValid, eval_transaction-IsValid}

module _ (call : Transaction → Multisig → Option Bytes × Multisig) where
  -- A message that does not panic. One that panics, or returns an error, changes nothing.
  pub data Step : Multisig → Multisig → Type 0 where
    add :
        (env : Env) (new_owner : AccountId) (u : Unit {0}) (events : List Event) (m m' : Multisig)
        → add_owner env new_owner m ≡ ret (u, m', events)
        → Step m m'
    remove :
        (env : Env) (owner : AccountId) (u : Unit {0}) (events : List Event) (m m' : Multisig)
        → remove_owner env owner m ≡ ret (u, m', events)
        → Step m m'
    replace :
        (env : Env) (old_owner new_owner : AccountId) (u : Unit {0}) (events : List Event)
        (m m' : Multisig)
        → replace_owner env old_owner new_owner m ≡ ret (u, m', events)
        → Step m m'
    change :
        (env : Env) (new_requirement : ℕ) (u : Unit {0}) (events : List Event) (m m' : Multisig)
        → change_requirement env new_requirement m ≡ ret (u, m', events)
        → Step m m'
    submit :
        (env : Env) (transaction : Transaction) (r : TransactionId × ConfirmationStatus)
        (events : List Event) (m m' : Multisig)
        → submit_transaction env transaction m ≡ ret (r, m', events)
        → Step m m'
    cancel :
        (env : Env) (t : TransactionId) (u : Unit {0}) (events : List Event) (m m' : Multisig)
        → cancel_transaction env t m ≡ ret (u, m', events)
        → Step m m'
    confirm :
        (env : Env) (t : TransactionId) (status : ConfirmationStatus) (events : List Event)
        (m m' : Multisig)
        → confirm_transaction env t m ≡ ret (status, m', events)
        → Step m m'
    revoke :
        (env : Env) (t : TransactionId) (u : Unit {0}) (events : List Event) (m m' : Multisig)
        → revoke_confirmation env t m ≡ ret (u, m', events)
        → Step m m'
    invoke :
        (env : Env) (t : TransactionId) (r : Result (Unit {0}) Error) (events : List Event)
        (m m' : Multisig)
        → invoke_transaction call env t m ≡ ret (r, m', events)
        → Step m m'
    eval :
        (t : TransactionId) (r : Result Bytes Error) (events : List Event) (m m' : Multisig)
        → eval_transaction call t m ≡ ret (r, m', events)
        → Step m m'

  pub data Reach (start : Multisig) : Multisig → Type 0 where
    here : Reach start start
    next : {m n : Multisig} → Reach start m → Step m n → Reach start n

  module _ (quiet : Quiet call) where
    Step-IsValid : {m n : Multisig} → Step m n → IsValid m → IsValid n
    Step-IsValid (add env new_owner u events m m' run) v =
        add_owner-IsValid env new_owner m m' u events v run
    Step-IsValid (remove env owner u events m m' run) v =
        remove_owner-IsValid env owner m m' u events v run
    Step-IsValid (replace env old_owner new_owner u events m m' run) v =
        replace_owner-IsValid env old_owner new_owner m m' u events v run
    Step-IsValid (change env new_requirement u events m m' run) v =
        change_requirement-IsValid env new_requirement m m' u events v run
    Step-IsValid (submit env transaction r events m m' run) v =
        submit_transaction-IsValid env transaction m m' r events v run
    Step-IsValid (cancel env t u events m m' run) v =
        cancel_transaction-IsValid env t m m' u events v run
    Step-IsValid (confirm env t status events m m' run) v =
        confirm_transaction-IsValid env t m m' status events v run
    Step-IsValid (revoke env t u events m m' run) v =
        revoke_confirmation-IsValid env t m m' u events v run
    Step-IsValid (invoke env t r events m m' run) v =
        invoke_transaction-IsValid call quiet env t m m' r events v run
    Step-IsValid (eval t r events m m' run) v =
        eval_transaction-IsValid call quiet t m m' r events v run

    Reach-keeps : {start m : Multisig} → IsValid start → Reach start m → IsValid m
    Reach-keeps v here = v
    Reach-keeps v (next r s) = Step-IsValid s (Reach-keeps v r)

    -- Every wallet that messages reach from a new one, of fewer than 2 ^ 32 accounts, is valid: its
    -- owners are as many as are required, at most 50, each once, and those whom `is_owner` tells; its
    -- list has each transaction that is there once; and each transaction's count is the number of
    -- owners who have confirmed it. The calls of other contracts leave the wallet as it is.
    pub Reach-Wallet_IsValid :
        (requirement : ℕ) (owners : List AccountId) (start m : Multisig)
        → length owners < u32_mod
        → new requirement owners ≡ ret start
        → Reach start m
        → IsValid m
    Reach-Wallet_IsValid requirement owners start m short made r =
        Reach-keeps (new-IsValid requirement owners start short made) r
