-- ===== src/Engine/Properties.antt =====
-- The host functions of crates/engine/src/ext.rs that read the context, record a message, price
-- gas, and call a chain extension. `instantiate`, `call` and `gas_left` are `unimplemented!`.
use Prim.Native.String.{String}
use ink.Prelude.{ℕ, ◌*◌, ◌-◌, Outcome, ret, ◌>>=◌, expect, ltb, if◌then◌else◌}
use ink.Engine.Host.{Bytes, Host, u128_mod}
use ink.Engine.Database
use ink.Engine.DebugInfo
use ink.Engine.ChainExtension
use ink.Engine.State.{Engine}
use ink.Engine.Ext.{set_output}

module _ ⦃host : Host⦄ where
  unfoldable pub caller : Bytes → Engine → Outcome Bytes
  unfolding set_output
  caller output e = do c ← expect e.exec_context.caller; set_output output c

  unfoldable pub balance : Bytes → Engine → Outcome Bytes
  unfolding set_output
  balance output e = do
    contract ← expect e.exec_context.callee
    found ← Database.get_balance contract e.database
    balance_in_storage ← expect found
    set_output output (host.encode_u128 balance_in_storage)

  unfoldable pub value_transferred : Bytes → Engine → Outcome Bytes
  unfolding set_output
  value_transferred output e = set_output output (host.encode_u128 e.exec_context.value_transferred)

  unfoldable pub address : Bytes → Engine → Outcome Bytes
  unfolding set_output
  address output e = do callee ← expect e.exec_context.callee; set_output output callee

  unfoldable pub block_number : Bytes → Engine → Outcome Bytes
  unfolding set_output
  block_number output e = set_output output (host.encode_u32 e.exec_context.block_number)

  unfoldable pub block_timestamp : Bytes → Engine → Outcome Bytes
  unfolding set_output
  block_timestamp output e = set_output output (host.encode_u64 e.exec_context.block_timestamp)

  unfoldable pub minimum_balance : Bytes → Engine → Outcome Bytes
  unfolding set_output
  minimum_balance output e = set_output output (host.encode_u128 e.chain_spec.minimum_balance)

  -- `u128::saturating_mul`
  abbrev pub saturating_mul_u128 : ℕ → ℕ → ℕ
  saturating_mul_u128 a b = if ltb (a * b) u128_mod then a * b else u128_mod - 1

  unfoldable pub weight_to_fee : ℕ → Bytes → Engine → Outcome Bytes
  unfolding set_output
  weight_to_fee gas output e =
      set_output output (host.encode_u128 (saturating_mul_u128 e.chain_spec.gas_price gas))

  -- The input is encoded once more as a byte vector; a missing extension is a panic.
  unfoldable pub call_chain_extension : ℕ → Bytes → Bytes → Engine → Outcome (Bytes × Engine)
  unfolding set_output ChainExtension.eval
  call_chain_extension func_id input output e = do
    let (answer, handler) =
        ChainExtension.eval func_id (host.encode_bytes input) e.chain_extension_handler
    status ← expect answer
    filled ← set_output output (host.encode_status status.0 status.1)
    ret (filled, record e { chain_extension_handler = handler })

-- `debug_message` also prints.
unfoldable pub debug_message : String → Engine → Engine
unfolding DebugInfo.record_debug_message
debug_message message e = record e {
  debug_info = DebugInfo.record_debug_message message e.debug_info;
}
