-- ===== src/Env/OnChain.antt =====
-- The environment of a contract on the chain, `EnvBackend for EnvInstance` of
-- crates/env/src/engine/on_chain/impls.rs: the functions that the entry points call. The host, which
-- answers its calls, is played by the engine; the input of the call is an argument. The static buffer
-- has its usual size; what earlier calls have left in it is zeros here.
use ink.Prelude.{
  ℕ, ◌+◌, ◌≡◌, ◌<◌, Option, some, [], ◌∷◌, Bytes, replicate, length, length-replicate, length-drop,
  drop, Outcome, ret, assert, expect, leb, ◌>>=◌, ◌>>◌, arith,
}
use ink.Prelude.Result.{Result, ok, err}
use ink.Engine.Host.{Host}
use ink.Engine.State.{Engine}
use ink.Engine.Properties.{value_transferred}
use ink.Engine.Ext.{set_storage, get_storage}
use ink.Engine.Ext.Storage.{
  cell, after_set, after_read, IsSmall, size_of, get_storage_hit, set_storage_runs,
}
use ink.Buffer.{ScopedBuffer, buffer_from, take_encoded, take_rest}
use ink.Buffer.Pieces.{take_encoded_one}
use ink.Env.Backend.{Storable, StorableLaws, EnvError, decode_output}

-- `BUFFER_SIZE`
abbrev pub buffer_size : ℕ
buffer_size = 16384

unfoldable pub static_buffer : Bytes
static_buffer = replicate buffer_size 0

length-static_buffer : length static_buffer ≡ 16384
unfolding static_buffer
length-static_buffer = length-replicate {A = ℕ} 16384 0

-- `scoped_buffer`
abbrev pub scoped_buffer : ScopedBuffer
scoped_buffer = buffer_from static_buffer

-- `LangError` of crates/primitives/src/lib.rs
pub data LangError : Type 0 where
  could_not_read_input : LangError

-- The encoding of a `Result<T, LangError>`, whose `Ok` is encoded.
abbrev pub encode_result : Result Bytes LangError → Bytes
encode_result (ok b) = 0 ∷ b
encode_result (err could_not_read_input) = 1 ∷ 1 ∷ []

-- What `decode_input` decodes: an input that is longer than the buffer traps.
unfoldable pub read_input : Bytes → Outcome Bytes
read_input input = do assert (leb (length input) buffer_size); ret input

-- `return_value` encodes its value into the buffer, which must have room for it.
unfoldable pub return_value : {A : Type 0} → Result Bytes LangError → A → Outcome A
return_value value returned = do
  assert (leb (length (encode_result value)) buffer_size)
  ret returned

module _ ⦃host : Host⦄ where
  -- The 16 bytes of a `u128`, of which each has a value.
  unfoldable pub transferred_value : Engine → Outcome ℕ
  unfolding value_transferred
  transferred_value e =
      value_transferred (replicate 16 0) e >>= λ result. expect (host.decode_u128 result)

  module _ {V : Type 0} (s : Storable V) where
    unfoldable pub set_contract_storage : Bytes → V → Engine → Outcome (Option ℕ × Engine)
    set_contract_storage key value e = do
      (key', buffer) ← take_encoded (key ∷ []) scoped_buffer
      (value', rest) ← take_encoded (s.encode value ∷ []) buffer
      set_storage key' value' e

    unfoldable pub get_contract_storage :
        Bytes → Engine → Outcome (Result (Option V) EnvError × Engine)
    unfolding decode_output
    get_contract_storage key e = do
      (key', buffer) ← take_encoded (key ∷ []) scoped_buffer
      output ← take_rest buffer
      get_storage key' output e >>= decode_output s

    -- The key and the value fit in the buffer, and leave a byte of it.
    abbrev pub FitsBuffer : Bytes → V → Type 0
    FitsBuffer key v = length key + length (s.encode v) < buffer_size

    pub set_contract_storage_runs :
        (c key : Bytes) (v : V) (e : Engine)
        → e.exec_context.callee ≡ some c
        → FitsBuffer key v
        → IsSmall (cell c key e)
        → set_contract_storage key v e
          ≡ ret (size_of (cell c key e), after_set c key (s.encode v) e)
    unfolding set_contract_storage
    set_contract_storage_runs c key v e called fits small = ground (
      arith,
      length-static_buffer,
      take_encoded_one key static_buffer,
      length-drop (length key) static_buffer,
      take_encoded_one (s.encode v) (drop (length key) static_buffer),
      set_storage_runs c e called key (s.encode v) small,
    )

    pub get_contract_storage_hit :
        (laws : StorableLaws s) (c key : Bytes) (v : V) (e : Engine)
        → e.exec_context.callee ≡ some c
        → cell c key e ≡ some (s.encode v)
        → FitsBuffer key v
        → get_contract_storage key e ≡ ret (ok (some v), after_read c e)
    unfolding get_contract_storage decode_output take_rest
    get_contract_storage_hit laws c key v e called has fits =
        let output = drop (length key) static_buffer in
        ground (
          arith,
          length-static_buffer,
          take_encoded_one key static_buffer,
          length-drop (length key) static_buffer,
          get_storage_hit c e called key output (s.encode v) has,
          laws.decode-encode v (drop (length (s.encode v)) output),
        )
