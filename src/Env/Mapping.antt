-- ===== src/Env/Mapping.antt =====
-- `Mapping`, crates/storage/src/lazy/mapping.rs: a view of the contract's storage, by a prefix.
pub mod Entries
use ink.Prelude.{
  ℕ, Bool, true, false, Option, none, some, List, [], ◌∷◌, ◌++◌, Bytes, Outcome, ret, panic, ◌>>=◌,
}
use ink.Prelude.Result.{Result, ok, err}
use ink.Engine.Host.{Host}
use ink.Engine.State.{Engine}
use ink.Env.Backend.{
  Storable, EnvError, set_contract_storage, get_contract_storage, take_contract_storage,
  contains_contract_storage, clear_contract_storage,
}

abbrev is_some : {A : Type 0} → Option A → Bool
is_some none = false
is_some (some _) = true

-- `KeyType::KEY` is `prefix`. A key of the mapping is its encoding.
module _ ⦃host : Host⦄ (prefix : ℕ) where
  -- `(&KeyType::KEY, key)`, encoded
  unfoldable pub entry_key : Bytes → Bytes
  entry_key key = host.encode_u32 prefix ++ key

  module _ {V : Type 0} (s : Storable V) where
    unfoldable pub insert : Bytes → V → Engine → Outcome (Option ℕ × Engine)
    insert key value e = set_contract_storage s (entry_key key) value e

    abbrev unwrap : Result (Option V) EnvError × Engine → Outcome (Option V × Engine)
    unwrap (ok v, e) = ret (v, e)
    unwrap (err _, e) = panic

    unfoldable pub get : Bytes → Engine → Outcome (Option V × Engine)
    get key e = get_contract_storage s (entry_key key) e >>= unwrap

    unfoldable pub take_entry : Bytes → Engine → Outcome (Option V × Engine)
    take_entry key e = take_contract_storage s (entry_key key) e >>= unwrap

  unfoldable pub size : Bytes → Engine → Outcome (Option ℕ × Engine)
  size key e = contains_contract_storage (entry_key key) e

  unfoldable pub contains : Bytes → Engine → Outcome (Bool × Engine)
  contains key e = contains_contract_storage (entry_key key) e >>= λ r. ret (is_some r.0, r.1)

  unfoldable pub remove : Bytes → Engine → Outcome Engine
  remove key e = clear_contract_storage (entry_key key) e >>= λ r. ret r.1
