-- ===== src/Contracts/Multisig/Invariant.antt =====
-- What holds of the wallet between two messages, integration-tests/multisig/lib.rs.
use ink.Prelude.{
  ℕ, ◌≤◌, ◌<◌, ◌≡◌, ◌≢◌, ◌↔◌, none, some, List, length, bytes_eq, nat_eq, nat_beq, pair_eq,
  if◌then◌else◌,
}
use ink.Prelude.HashMap
use ink.Prelude.HashMap.{HashMap}
use ink.Contracts.Totals.{total, count}
use ink.Contracts.Multisig.{AccountId, TransactionId, Transaction, Multisig, max_owners, is_some}

-- Whether an owner has confirmed a transaction, and how many have.
abbrev pub confirmed_by : Multisig → TransactionId → AccountId → ℕ
confirmed_by m t o = if is_some (HashMap.get (t, o) m.confirmations) then 1 else 0

abbrev pub confirmed_owners : Multisig → TransactionId → List AccountId → ℕ
confirmed_owners m t = total (confirmed_by m t)

-- The owners: as many as are required, each once, and the map that tells who is one.
pub record OwnersValid (requirement : ℕ) (owners : List AccountId)
    (is_owner : HashMap AccountId (Unit {0})) : Type 0 where
  pub required : 0 < requirement
  pub enough : requirement ≤ length owners
  pub few : length owners ≤ max_owners
  pub distinct : (o : AccountId) → count o owners ≤ 1
  pub known : (o : AccountId) → (HashMap.get o is_owner ≡ none) ↔ (count o owners ≡ 0)

-- The transactions: each once in the list, which has those that are there.
pub record TransactionsValid (transactions : HashMap TransactionId Transaction)
    (ids : List TransactionId) (next_id : TransactionId) : Type 0 where
  pub distinct : (t : TransactionId) → count t ids ≤ 1
  pub listed : (t : TransactionId) → (HashMap.get t transactions ≡ none) ↔ (count t ids ≡ 0)
  pub below : (t : TransactionId) → 0 < count t ids → t < next_id

-- The confirmations: by owners, of transactions that are there, and counted.
pub record ConfirmationsValid (m : Multisig) : Type 0 where
  pub by_owners :
      (t : TransactionId) (o : AccountId)
      → HashMap.get (t, o) m.confirmations ≢ none
      → (0 < count t m.transaction_ids) × (0 < count o m.owners)
  pub counted :
      (t : TransactionId)
      → HashMap.get t m.confirmation_count ≡ (
          if nat_beq (count t m.transaction_ids) 0
          then none
          else some (confirmed_owners m t m.owners))

pub record IsValid (m : Multisig) : Type 0 where
  pub owners : OwnersValid m.requirement m.owners m.is_owner
  pub transactions : TransactionsValid m.transactions m.transaction_ids m.next_id
  pub confirmations : ConfirmationsValid m
