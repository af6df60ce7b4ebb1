-- ===== src/Engine/Database/Laws.antt =====
-- The database is two independent maps: balances by account, and storage cells by account and key.
use ink.Prelude.{
  ℕ, ◌<◌, ◌≡◌, refl, Option, none, some, length, ret, arith, ◌==◌, ◌&&◌, if◌then◌else◌, bytes_eq,
}
use ink.Prelude.HashMap
use ink.Engine.Host.{Bytes, Host, HostLaws, u128_mod}
use ink.Engine.Database
use ink.Engine.Database.{
  Database, get, insert_into_contract_storage, remove_contract_storage, get_from_contract_storage,
  get_balance, set_balance, decode_balance, balance_of_key, storage_of_contract_key,
}
use ink.Engine.Database.Keys.{
  balance_of_key-beq, storage_of_contract_key-beq, balance_storage-beq, storage_balance-beq,
}

module _ ⦃host : Host⦄ (laws : HostLaws host) where
  stored : ℕ → Option Bytes → Bytes
  stored n o = HashMap.upserted (λ _. host.encode_u128 n) (host.encode_u128 n) o

  stored_lem : (n : ℕ) (o : Option Bytes) → stored n o ≡ host.encode_u128 n
  unfolding stored
  stored_lem n none = refl
  stored_lem n (some w) = refl

  -- A balance below 2 ^ 128 that is set is read back, and no other account's balance changes.
  pub get_balance-set_balance :
      (a b : Bytes) (n : ℕ) (db : Database)
      → n < u128_mod
      → get_balance a (set_balance b n db) ≡ (if a == b then ret (some n) else get_balance a db)
  unfolding get_balance set_balance stored
  get_balance-set_balance a b n db h =
      rw (HashMap.get-upsert, balance_of_key-beq laws a b, stored_lem n)
        (ground (arith, laws.decode-encode_u128 n h))

  -- A cell that is written is read back, and no other cell of an account of that length changes.
  pub get_from_contract_storage-insert :
      (a b k j v : Bytes) (db : Database)
      → length a ≡ length b
      → get_from_contract_storage a k (insert_into_contract_storage b j v db).1
        ≡ (if a == b && k == j then some v else get_from_contract_storage a k db)
  unfolding get_from_contract_storage insert_into_contract_storage
  get_from_contract_storage-insert a b k j v db h =
      rw (HashMap.get-insert, storage_of_contract_key-beq laws a b k j h)

  pub get_from_contract_storage-remove :
      (a b k j : Bytes) (db : Database)
      → length a ≡ length b
      → get_from_contract_storage a k (remove_contract_storage b j db).1
        ≡ (if a == b && k == j then none else get_from_contract_storage a k db)
  unfolding get_from_contract_storage remove_contract_storage
  get_from_contract_storage-remove a b k j db h =
      rw (HashMap.get-remove, storage_of_contract_key-beq laws a b k j h)

  pub get_from_contract_storage-set_balance :
      (a b k : Bytes) (n : ℕ) (db : Database)
      → get_from_contract_storage a k (set_balance b n db) ≡ get_from_contract_storage a k db
  unfolding get_from_contract_storage set_balance
  get_from_contract_storage-set_balance a b k n db =
      rw (HashMap.get-upsert, storage_balance-beq laws b a k)

  pub get_balance-insert :
      (a b k v : Bytes) (db : Database)
      → get_balance a (insert_into_contract_storage b k v db).1 ≡ get_balance a db
  unfolding get_balance insert_into_contract_storage
  get_balance-insert a b k v db = rw (HashMap.get-insert, balance_storage-beq laws a b k)

  pub get_balance-remove :
      (a b k : Bytes) (db : Database)
      → get_balance a (remove_contract_storage b k db).1 ≡ get_balance a db
  unfolding get_balance remove_contract_storage
  get_balance-remove a b k db = rw (HashMap.get-remove, balance_storage-beq laws a b k)

module _ ⦃host : Host⦄ where
  -- Writing and removing return the old value.
  pub insert_into_contract_storage-old :
      (a k v : Bytes) (db : Database)
      → (insert_into_contract_storage a k v db).0 ≡ get_from_contract_storage a k db
  unfolding insert_into_contract_storage get_from_contract_storage
  insert_into_contract_storage-old a k v db = refl

  pub remove_contract_storage-old :
      (a k : Bytes) (db : Database)
      → (remove_contract_storage a k db).0 ≡ get_from_contract_storage a k db
  unfolding remove_contract_storage get_from_contract_storage
  remove_contract_storage-old a k db = refl

  pub get_from_contract_storage-new :
      (a k : Bytes) → get_from_contract_storage a k Database.new ≡ none
  unfolding get_from_contract_storage
  get_from_contract_storage-new a k = HashMap.get-empty (storage_of_contract_key a k)
