-- ===== src/Env/Lazy.antt =====
-- `Lazy`, crates/storage/src/lazy/mod.rs: a value in a cell of its own, at the key of its type.
pub mod Cell
use ink.Prelude.{ℕ, Option, none, some, List, [], Bytes, Outcome, ret, ◌>>=◌}
use ink.Prelude.Result.{Result, ok, err}
use ink.Engine.Host.{Host}
use ink.Engine.State.{Engine}
use ink.Env.Backend.{Storable, EnvError, set_contract_storage, get_contract_storage}

-- `Lazy` holds nothing.
pub data Lazy : Type 0 where
  new : Lazy

-- `Storable for Lazy`: it takes no room in the storage of what holds it.
abbrev pub lazy_storable : Storable Lazy
lazy_storable = record { encode = λ l. []; decode = λ b. some new }

-- `KeyType::KEY` is `key`.
module _ ⦃host : Host⦄ (key : ℕ) {V : Type 0} (s : Storable V) where
  -- `Ok(Some(value)) => Some(value)` and `_ => None`
  abbrev value_of : Result (Option V) EnvError × Engine → Option V × Engine
  value_of (ok o, e) = (o, e)
  value_of (err _, e) = (none, e)

  unfoldable pub get : Lazy → Engine → Outcome (Option V × Engine)
  get l e = get_contract_storage s (host.encode_u32 key) e >>= λ r. ret (value_of r)

  unfoldable pub set : V → Lazy → Engine → Outcome Engine
  set value l e = set_contract_storage s (host.encode_u32 key) value e >>= λ r. ret r.1

  abbrev value_or : V → Result (Option V) EnvError × Engine → V × Engine
  value_or default (ok (some v), e) = (v, e)
  value_or default (ok none, e) = (default, e)
  value_or default (err _, e) = (default, e)

  unfoldable pub get_or_default : V → Lazy → Engine → Outcome (V × Engine)
  get_or_default default l e =
      get_contract_storage s (host.encode_u32 key) e >>= λ r. ret (value_or default r)
