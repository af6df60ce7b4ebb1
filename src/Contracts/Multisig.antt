-- ===== src/Contracts/Multisig.antt =====
-- A wallet of several owners, integration-tests/multisig/lib.rs. A message takes the wallet and
-- returns it with its result and the events that it emits, or panics, which rolls it back. Accounts
-- are bytes. A call of another contract is a parameter, in Invoke.
pub mod Invariant
pub mod Confirm
pub mod Submit
pub mod Revoke
pub mod Take
pub mod Clean
pub mod Owners
pub mod Leave
pub mod Remove
pub mod Replace
pub mod Invoke
pub mod Execute
pub mod New
pub mod Steps
pub mod Reentry
pub mod Sort
mod Tests
use ink.Prelude.{
  ℕ, ◌+◌, ◌-◌, ◌%◌, ◌^◌, Bool, true, false, not, ◌&&◌, Option, none, some, List, [], ◌∷◌, ◌++◌,
  Bytes, bytes_eq, nat_eq, Eq, ◌==◌, Outcome, ret, panic, assert, expect, ◌>>=◌, ◌>>◌, length, ltb,
  leb, pair_eq, if◌then◌else◌,
}
use ink.Prelude.HashMap
use ink.Prelude.HashMap.{HashMap}
use ink.Prelude.Result.{Result}
use ink.Contracts.Totals.{swap_remove, position, assign}

abbrev pub AccountId : Type 0
AccountId = Bytes

abbrev pub TransactionId : Type 0
TransactionId = ℕ

abbrev pub max_owners : ℕ
max_owners = 50

abbrev pub u32_mod : ℕ
u32_mod = 4294967296

pub data ConfirmationStatus : Type 0 where
  confirmed : ConfirmationStatus
  confirmations_needed : ℕ → ConfirmationStatus

pub record Transaction : Type 0 where
  pub callee : AccountId
  pub selector : Bytes
  pub input : Bytes
  pub transferred_value : ℕ
  pub gas_limit : ℕ
  pub allow_reentry : Bool

pub data Error : Type 0 where
  transaction_failed : Error

-- The events that the contract emits.
pub data Event : Type 0 where
  confirmation : TransactionId → AccountId → ConfirmationStatus → Event
  revocation : TransactionId → AccountId → Event
  submission cancellation : TransactionId → Event
  execution : TransactionId → Result (Option Bytes) Error → Event
  owner_addition owner_removal : AccountId → Event
  requirement_change : ℕ → Event

pub record Multisig : Type 0 where
  pub confirmations : HashMap (TransactionId × AccountId) (Unit {0})
  pub confirmation_count : HashMap TransactionId ℕ
  pub transactions : HashMap TransactionId Transaction
  -- `transaction_list`
  pub transaction_ids : List TransactionId
  pub next_id : TransactionId
  pub owners : List AccountId
  pub is_owner : HashMap AccountId (Unit {0})
  pub requirement : ℕ

-- What a message reads of its environment.
pub record Env : Type 0 where
  pub caller : AccountId
  pub account_id : AccountId
  pub transferred_value : ℕ

abbrev pub Message : Type 0 → Type 0
Message A = Outcome (A × Multisig × List Event)

abbrev pub is_some {ℓ} : {A : Type ℓ} → Option A → Bool
is_some none = false
is_some (some _) = true

-- `a + b` and `a - b` on `u32`, with overflow checks.
abbrev pub add_u32 : ℕ → ℕ → Outcome ℕ
add_u32 a b = do assert (ltb (a + b) u32_mod); ret (a + b)

abbrev pub sub_u32 : ℕ → ℕ → Outcome ℕ
sub_u32 a b = do assert (leb b a); ret (a - b)

-- `owners.len() as u32`
abbrev pub owners_len : List AccountId → ℕ
owners_len owners = length owners % u32_mod

unfoldable pub ensure_requirement_is_valid : ℕ → ℕ → Outcome (Unit {0})
ensure_requirement_is_valid owners requirement =
    assert (ltb 0 requirement && leb requirement owners && leb owners max_owners)

unfoldable pub ensure_owner : AccountId → Multisig → Outcome (Unit {0})
ensure_owner owner self = assert (is_some (HashMap.get owner self.is_owner))

unfoldable pub ensure_no_owner : AccountId → Multisig → Outcome (Unit {0})
ensure_no_owner owner self = assert (not (is_some (HashMap.get owner self.is_owner)))

unfoldable pub ensure_from_wallet : Env → Outcome (Unit {0})
ensure_from_wallet env = assert (env.caller == env.account_id)

unfoldable pub ensure_caller_is_owner : Env → Multisig → Outcome (Unit {0})
unfolding ensure_owner
ensure_caller_is_owner env self = ensure_owner env.caller self

unfoldable pub ensure_transaction_exists : TransactionId → Multisig → Outcome (Unit {0})
ensure_transaction_exists trans_id self =
    expect (HashMap.get trans_id self.transactions) >>= λ _. ret tt

unfoldable pub ensure_confirmed : TransactionId → Multisig → Outcome (Unit {0})
ensure_confirmed trans_id self = do
  count ← expect (HashMap.get trans_id self.confirmation_count)
  assert (leb self.requirement count)

unfoldable pub owner_index : AccountId → Multisig → Outcome ℕ
owner_index owner self = expect (position owner self.owners)

-- The loop of `take_transaction` over the owners.
unfoldable pub remove_confirmations :
    TransactionId
    → List AccountId
    → HashMap (TransactionId × AccountId) (Unit {0})
    → HashMap (TransactionId × AccountId) (Unit {0})
remove_confirmations trans_id [] confirmations = confirmations
remove_confirmations trans_id (o ∷ os) confirmations =
    remove_confirmations trans_id os (HashMap.remove (trans_id, o) confirmations)

-- A transaction that is there is taken out of the list, with all its confirmations.
unfoldable pub take_found : TransactionId → Multisig → Outcome (Option Transaction × Multisig)
take_found trans_id self = do
  pos ← expect (position trans_id self.transaction_ids)
  ids ← swap_remove pos self.transaction_ids
  ret (
    HashMap.get trans_id self.transactions,
    record self {
      transactions = HashMap.remove trans_id self.transactions;
      transaction_ids = ids;
      confirmations = remove_confirmations trans_id self.owners self.confirmations;
      confirmation_count = HashMap.remove trans_id self.confirmation_count;
    },
  )

unfoldable pub take_transaction : TransactionId → Multisig → Outcome (Option Transaction × Multisig)
unfolding take_found
take_transaction trans_id self =
    if is_some (HashMap.get trans_id self.transactions)
    then take_found trans_id self
    else ret (none, self)

abbrev pub unwrap_or {ℓ} : {A : Type ℓ} → A → Option A → A
unwrap_or a none = a
unwrap_or a (some b) = b

abbrev remove_and_uncount : AccountId → TransactionId → Multisig → Outcome Multisig
remove_and_uncount owner trans_id self = do
  count ← sub_u32 (unwrap_or 0 (HashMap.get trans_id self.confirmation_count)) 1
  ret (record self {
    confirmations = HashMap.remove (trans_id, owner) self.confirmations;
    confirmation_count = HashMap.insert trans_id count self.confirmation_count;
  })

-- The body of the loop of `clean_owner_confirmations`.
unfoldable pub clean_confirmation : AccountId → TransactionId → Multisig → Outcome Multisig
clean_confirmation owner trans_id self =
    if is_some (HashMap.get (trans_id, owner) self.confirmations)
    then remove_and_uncount owner trans_id self
    else ret self

unfoldable pub clean_loop : AccountId → List TransactionId → Multisig → Outcome Multisig
clean_loop owner [] self = ret self
clean_loop owner (t ∷ ts) self = do
  self' ← clean_confirmation owner t self
  clean_loop owner ts self'

unfoldable pub clean_owner_confirmations : AccountId → Multisig → Outcome Multisig
clean_owner_confirmations owner self = clean_loop owner self.transaction_ids self

abbrev pub status_of : ℕ → ℕ → ConfirmationStatus
status_of requirement count =
    if leb requirement count then confirmed else confirmations_needed (requirement - count)

unfoldable pub confirm_by_caller : AccountId → TransactionId → Multisig → Message ConfirmationStatus
confirm_by_caller confirmer transaction self = do
  let count = unwrap_or 0 (HashMap.get transaction self.confirmation_count)
  let new_confirmation = not (is_some (HashMap.get (transaction, confirmer) self.confirmations))
  count' ← if new_confirmation then add_u32 count 1 else ret count
  let status = status_of self.requirement count'
  ret (
      if new_confirmation
      then (
        status,
        record self {
          confirmations = HashMap.insert (transaction, confirmer) tt self.confirmations;
          confirmation_count = HashMap.insert transaction count' self.confirmation_count;
        },
        confirmation transaction confirmer status ∷ [],
      )
      else (status, self, []))

unfoldable pub add_owner : Env → AccountId → Multisig → Message (Unit {0})
add_owner env new_owner self = do
  ensure_from_wallet env
  ensure_no_owner new_owner self
  len ← add_u32 (owners_len self.owners) 1
  ensure_requirement_is_valid len self.requirement
  ret (
    tt,
    record self {
      is_owner = HashMap.insert new_owner tt self.is_owner;
      owners = self.owners ++ new_owner ∷ [];
    },
    owner_addition new_owner ∷ [],
  )

unfoldable pub remove_owner : Env → AccountId → Multisig → Message (Unit {0})
remove_owner env owner self = do
  ensure_from_wallet env
  ensure_owner owner self
  len ← sub_u32 (owners_len self.owners) 1
  let requirement = if leb len self.requirement then len else self.requirement
  ensure_requirement_is_valid len requirement
  index ← owner_index owner self
  owners ← swap_remove index self.owners
  self' ← clean_owner_confirmations owner (record self {
    owners = owners;
    is_owner = HashMap.remove owner self.is_owner;
    requirement = requirement;
  })
  ret (tt, self', owner_removal owner ∷ [])

unfoldable pub replace_owner : Env → AccountId → AccountId → Multisig → Message (Unit {0})
replace_owner env old_owner new_owner self = do
  ensure_from_wallet env
  ensure_owner old_owner self
  ensure_no_owner new_owner self
  index ← owner_index old_owner self
  self' ← clean_owner_confirmations old_owner (record self {
    owners = assign index new_owner self.owners;
    is_owner = HashMap.insert new_owner tt (HashMap.remove old_owner self.is_owner);
  })
  ret (tt, self', owner_removal old_owner ∷ owner_addition new_owner ∷ [])

unfoldable pub change_requirement : Env → ℕ → Multisig → Message (Unit {0})
change_requirement env new_requirement self = do
  ensure_from_wallet env
  ensure_requirement_is_valid (owners_len self.owners) new_requirement
  ret (tt, record self { requirement = new_requirement }, requirement_change new_requirement ∷ [])

unfoldable pub submit_transaction :
    Env → Transaction → Multisig → Message (TransactionId × ConfirmationStatus)
submit_transaction env transaction self = do
  ensure_caller_is_owner env self
  next ← add_u32 self.next_id 1
  (status, self', events) ← confirm_by_caller env.caller self.next_id (record self {
    next_id = next;
    transactions = HashMap.insert self.next_id transaction self.transactions;
    transaction_ids = self.transaction_ids ++ self.next_id ∷ [];
  })
  ret ((self.next_id, status), self', submission self.next_id ∷ events)

unfoldable pub cancel_transaction : Env → TransactionId → Multisig → Message (Unit {0})
cancel_transaction env trans_id self = do
  ensure_from_wallet env
  (taken, self') ← take_transaction trans_id self
  ret (tt, self', if is_some taken then cancellation trans_id ∷ [] else [])

unfoldable pub confirm_transaction : Env → TransactionId → Multisig → Message ConfirmationStatus
confirm_transaction env trans_id self = do
  ensure_caller_is_owner env self
  ensure_transaction_exists trans_id self
  confirm_by_caller env.caller trans_id self

abbrev revoke_found : Env → TransactionId → Multisig → Message (Unit {0})
revoke_found env trans_id self = do
  count ← expect (HashMap.get trans_id self.confirmation_count)
  count' ← sub_u32 count 1
  ret (
    tt,
    record self {
      confirmations = HashMap.remove (trans_id, env.caller) self.confirmations;
      confirmation_count = HashMap.insert trans_id count' self.confirmation_count;
    },
    revocation trans_id env.caller ∷ [],
  )

unfoldable pub revoke_confirmation : Env → TransactionId → Multisig → Message (Unit {0})
revoke_confirmation env trans_id self = do
  ensure_caller_is_owner env self
  if is_some (HashMap.get (trans_id, env.caller) self.confirmations)
      then revoke_found env trans_id self
      else ret (tt, self, [])
