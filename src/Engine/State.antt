-- ===== src/Engine/State.antt =====
-- The engine, its error codes and the chain specification, crates/engine/src/ext.rs and lib.rs.
use ink.Prelude.{ℕ, if◌then◌else◌, nat_beq}
use ink.Prelude.Result.{Result, ok, err}
use ink.Engine.Host.{Bytes}
use ink.Engine.Database
use ink.Engine.Database.{Database}
use ink.Engine.Context
use ink.Engine.Context.{ExecContext}
use ink.Engine.DebugInfo
use ink.Engine.DebugInfo.{DebugInfo}
use ink.Engine.ChainExtension
use ink.Engine.ChainExtension.{ChainExtensionHandler}

-- `ext::Error`
pub data Error : Type 0 where
  callee_trapped callee_reverted key_not_found below_subsistence_threshold transfer_failed : Error
  endowment_too_low code_not_found not_callable logging_disabled ecdsa_recovery_failed : Error
  sr25519_verify_failed unknown : Error

-- `impl From<ReturnCode> for Result`; there is no code 10.
unfoldable pub from_return_code : ℕ → Result (Unit {0}) Error
from_return_code c =
    if nat_beq c 0
    then ok tt
    else if nat_beq c 1
    then err callee_trapped
    else if nat_beq c 2
    then err callee_reverted
    else if nat_beq c 3
    then err key_not_found
    else if nat_beq c 4
    then err below_subsistence_threshold
    else if nat_beq c 5
    then err transfer_failed
    else if nat_beq c 6
    then err endowment_too_low
    else if nat_beq c 7
    then err code_not_found
    else if nat_beq c 8
    then err not_callable
    else if nat_beq c 9
    then err logging_disabled
    else if nat_beq c 11
    then err ecdsa_recovery_failed
    else if nat_beq c 12
    then err sr25519_verify_failed
    else err unknown

-- `AccountError` and the crate's `Error`; a SCALE error carries no data here.
pub data AccountError : Type 0 where
  decoding unexpected_user_account : AccountError
  no_account_for_id : Bytes → AccountError

pub data ApiError : Type 0 where
  account : AccountError → ApiError
  uninitialized_blocks uninitialized_execution_context unregistered_chain_extension : ApiError

pub record ChainSpec : Type 0 where
  pub gas_price : ℕ
  pub minimum_balance : ℕ
  pub block_time : ℕ

-- `ChainSpec::default`
abbrev pub default_chain_spec : ChainSpec
default_chain_spec = record { gas_price = 100; minimum_balance = 1000000; block_time = 6 }

pub record Engine : Type 0 where
  pub database : Database
  pub exec_context : ExecContext
  pub debug_info : DebugInfo
  pub chain_spec : ChainSpec
  pub chain_extension_handler : ChainExtensionHandler

abbrev pub new : Engine
new = record {
  database = Database.new;
  exec_context = Context.new;
  debug_info = DebugInfo.new;
  chain_spec = default_chain_spec;
  chain_extension_handler = ChainExtension.new;
}
