-- ===== src/Contracts/Multisig/Invoke.antt =====
-- The messages of the wallet that call another contract, integration-tests/multisig/lib.rs. The call
-- is a parameter: it is given the wallet as it stands in the storage, to which it may come back, and
-- returns what a successful call has returned and the wallet that it leaves. While a message runs,
-- its changes of a mapping are in the storage, and those of the other fields are not: these are
-- written when it ends, over what is there.
use ink.Prelude.{Option, none, some, [], ◌∷◌, Bytes, ret, assert, expect, ◌>>=◌, ◌>>◌, nat_beq}
use ink.Prelude.Result.{Result, ok, err}
use ink.Contracts.Multisig.{
  TransactionId, Transaction, Multisig, Env, Error, transaction_failed, execution, Message,
  ensure_confirmed, take_transaction,
}

-- The wallet in the storage, while the message that has loaded `start` has come to `now`.
abbrev pub on_chain : Multisig → Multisig → Multisig
on_chain start now = record now {
  transaction_ids = start.transaction_ids;
  next_id = start.next_id;
  owners = start.owners;
  requirement = start.requirement;
}

-- The message goes on, with the mappings as the call has left them.
abbrev pub resume : Multisig → Multisig → Multisig
resume now after = record now {
  confirmations = after.confirmations;
  confirmation_count = after.confirmation_count;
  transactions = after.transactions;
  is_owner = after.is_owner;
}

-- `Ok(Ok(v)) => Ok(v)` and `_ => Err(Error::TransactionFailed)`
abbrev pub result_of : Option Bytes → Result Bytes Error
result_of (some v) = ok v
result_of none = err transaction_failed

abbrev pub without_value : Result Bytes Error → Result (Unit {0}) Error
without_value (ok v) = ok tt
without_value (err x) = err x

abbrev pub event_of_invoke : Result Bytes Error → Result (Option Bytes) Error
event_of_invoke (ok v) = ok none
event_of_invoke (err x) = err x

abbrev pub event_of_eval : Result Bytes Error → Result (Option Bytes) Error
event_of_eval (ok v) = ok (some v)
event_of_eval (err x) = err x

module _ (call : Transaction → Multisig → Option Bytes × Multisig) where
  unfoldable pub invoke_transaction :
      Env → TransactionId → Multisig → Message (Result (Unit {0}) Error)
  invoke_transaction env trans_id self = do
    ensure_confirmed trans_id self
    (taken, self') ← take_transaction trans_id self
    t ← expect taken
    assert (nat_beq env.transferred_value t.transferred_value)
    let (answer, after) = call t (on_chain self self')
    ret (
      without_value (result_of answer),
      resume self' after,
      execution trans_id (event_of_invoke (result_of answer)) ∷ [],
    )

  unfoldable pub eval_transaction : TransactionId → Multisig → Message (Result Bytes Error)
  eval_transaction trans_id self = do
    ensure_confirmed trans_id self
    (taken, self') ← take_transaction trans_id self
    t ← expect taken
    let (answer, after) = call t (on_chain self self')
    ret (
      result_of answer,
      resume self' after,
      execution trans_id (event_of_eval (result_of answer)) ∷ [],
    )
