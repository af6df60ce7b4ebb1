-- ===== src/Engine/Database.antt =====
-- The chain database, crates/engine/src/database.rs: balances and contract storage in one hash map,
-- under hashed keys.
pub mod Keys
pub mod Laws
use ink.Prelude.{ℕ, Option, none, some, List, [], ◌∷◌, Outcome, ret, panic, expect, bytes_eq}
use ink.Prelude.HashMap
use ink.Prelude.HashMap.{HashMap}
use ink.Engine.Host.{Bytes, Host}

-- b"balance:"
abbrev pub balance_of : Bytes
balance_of = b'b' ∷ b'a' ∷ b'l' ∷ b'a' ∷ b'n' ∷ b'c' ∷ b'e' ∷ b':' ∷ []

-- b"contract-storage:"
abbrev pub storage_of : Bytes
storage_of =
    b'c' ∷ b'o' ∷ b'n' ∷ b't' ∷ b'r' ∷ b'a' ∷ b'c' ∷ b't' ∷ b'-' ∷ b's' ∷ b't' ∷ b'o' ∷ b'r' ∷ b'a'
    ∷ b'g' ∷ b'e' ∷ b':' ∷ []

pub record Database : Type 0 where
  pub hmap : HashMap Bytes Bytes

abbrev pub new : Database
new = record { hmap = [] }

unfoldable pub get : Bytes → Database → Option Bytes
get key db = HashMap.get key db.hmap

-- `insert` and `remove` return the old value.
unfoldable pub insert : Bytes → Bytes → Database → Option Bytes × Database
insert key value db = (HashMap.get key db.hmap, record { hmap = HashMap.insert key value db.hmap })

unfoldable pub remove : Bytes → Database → Option Bytes × Database
remove key db = (HashMap.get key db.hmap, record { hmap = HashMap.remove key db.hmap })

unfoldable pub clear : Database → Database
clear db = record { hmap = [] }

module _ ⦃host : Host⦄ where
  unfoldable pub balance_of_key : Bytes → Bytes
  balance_of_key who = host.blake2b_256 (host.to_keyed_vec who balance_of)

  unfoldable pub storage_of_contract_key : Bytes → Bytes → Bytes
  storage_of_contract_key who key =
      host.blake2b_256 (host.to_keyed_vec (host.to_keyed_vec who key) storage_of)

  unfoldable pub get_from_contract_storage : Bytes → Bytes → Database → Option Bytes
  get_from_contract_storage account_id key db =
      HashMap.get (storage_of_contract_key account_id key) db.hmap

  unfoldable pub insert_into_contract_storage :
      Bytes → Bytes → Bytes → Database → Option Bytes × Database
  insert_into_contract_storage account_id key value db =
      let hashed_key = storage_of_contract_key account_id key in
      (HashMap.get hashed_key db.hmap, record { hmap = HashMap.insert hashed_key value db.hmap })

  unfoldable pub remove_contract_storage : Bytes → Bytes → Database → Option Bytes × Database
  remove_contract_storage account_id key db =
      let hashed_key = storage_of_contract_key account_id key in
      (HashMap.get hashed_key db.hmap, record { hmap = HashMap.remove hashed_key db.hmap })

  -- The decoding of a stored balance, `expect`ed to work.
  abbrev decode_balance : Option Bytes → Outcome (Option ℕ)
  decode_balance none = ret none
  decode_balance (some encoded) = elim (host.decode_u128 encoded) [
    | none ↦ panic
    | some balance ↦ ret (some balance)
  ]

  unfoldable pub get_balance : Bytes → Database → Outcome (Option ℕ)
  unfolding get
  get_balance account_id db = decode_balance (get (balance_of_key account_id) db)

  -- `entry(key).and_modify(|v| *v = encoded).or_insert(encoded)`
  unfoldable pub set_balance : Bytes → ℕ → Database → Database
  set_balance account_id new_balance db =
      let encoded_balance = host.encode_u128 new_balance in
      record {
        hmap =
            HashMap.upsert (balance_of_key account_id) (λ _. encoded_balance) encoded_balance
              db.hmap;
      }
