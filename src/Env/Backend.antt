-- ===== src/Env/Backend.antt =====
-- The storage functions of `EnvBackend for EnvInstance`, crates/env/src/engine/off_chain/impls.rs.
-- How a value is encoded and decoded (`Storable`, which the crate scale and generated code
-- implement) is a parameter.
use ink.Prelude.{
  ℕ, ◌≡◌, Option, none, some, ◌++◌, Bytes, replicate, length, length-replicate, Outcome, ret, panic,
  ◌>>=◌,
}
use ink.Prelude.Result.{Result, ok, err}
use ink.Engine.Host.{Host}
use ink.Engine.State.{Engine, key_not_found}
use ink.Engine.Properties.{value_transferred}
use ink.Engine.Ext.{
  set_storage, get_storage, take_storage, contains_storage, clear_storage, ExtResult,
}

pub record Storable (V : Type 0) : Type 0 where
  pub encode : V → Bytes
  -- reads from the front
  pub decode : Bytes → Option V

-- What is encoded is decoded, whatever follows it.
pub record StorableLaws {V : Type 0} (s : Storable V) : Type 0 where
  pub decode-encode : (v : V) (rest : Bytes) → s.decode (s.encode v ++ rest) ≡ some v

-- The errors of `ink_env::Error` that these functions return.
pub data EnvError : Type 0 where
  decode_error : EnvError

-- `[0; 9600]`
unfoldable pub output_buffer : Bytes
output_buffer = replicate 9600 0

pub length-output_buffer : length output_buffer ≡ 9600
unfolding output_buffer
length-output_buffer = length-replicate {A = ℕ} 9600 0

module _ ⦃host : Host⦄ {V : Type 0} (s : Storable V) where
  unfoldable pub set_contract_storage : Bytes → V → Engine → Outcome (Option ℕ × Engine)
  set_contract_storage key value e = set_storage key (s.encode value) e

  -- What both reads make of the result and the buffer.
  unfoldable pub decode_output :
      ExtResult × Bytes × Engine → Outcome (Result (Option V) EnvError × Engine)
  decode_output (ok _, output, e) = elim (s.decode output) [
    | none ↦ ret (err decode_error, e)
    | some v ↦ ret (ok (some v), e)
  ]
  decode_output (err x, output, e) = elim x [ key_not_found ↦ ret (ok none, e) | _ ↦ panic ]

  unfoldable pub get_contract_storage :
      Bytes → Engine → Outcome (Result (Option V) EnvError × Engine)
  unfolding decode_output
  get_contract_storage key e = get_storage key output_buffer e >>= decode_output

  unfoldable pub take_contract_storage :
      Bytes → Engine → Outcome (Result (Option V) EnvError × Engine)
  unfolding decode_output
  take_contract_storage key e = take_storage key output_buffer e >>= decode_output

module _ ⦃host : Host⦄ where
  -- `get_property`, where the property is a balance
  unfoldable pub get_property :
      (Bytes → Engine → Outcome Bytes) → Engine → Outcome (Result ℕ EnvError)
  get_property property e = property output_buffer e >>= λ full_scope.
      elim (host.decode_u128 full_scope) [ none ↦ ret (err decode_error) | some v ↦ ret (ok v) ]

  abbrev unwrap_property : Result ℕ EnvError → Outcome ℕ
  unwrap_property (ok v) = ret v
  unwrap_property (err _) = panic

  unfoldable pub transferred_value : Engine → Outcome ℕ
  unfolding get_property value_transferred
  transferred_value e = get_property value_transferred e >>= unwrap_property

  unfoldable pub contains_contract_storage : Bytes → Engine → Outcome (Option ℕ × Engine)
  contains_contract_storage key e = contains_storage key e

  unfoldable pub clear_contract_storage : Bytes → Engine → Outcome (Option ℕ × Engine)
  clear_contract_storage key e = clear_storage key e
