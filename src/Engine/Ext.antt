-- ===== src/Engine/Ext.antt =====
-- The host functions, crates/engine/src/ext.rs. Each takes the engine and returns it; a panic is a
-- failed test, and the state behind it is not kept. An output buffer is passed in and out.
pub mod Transfer
pub mod Storage
pub mod Cells
pub mod Events
use Prim.Native.String.{String}
use ink.Prelude.{
  ℕ, ◌+◌, ◌-◌, ◌*◌, ◌/◌, ◌%◌, Bool, true, false, Option, none, some, List, [], ◌∷◌, ◌++◌, Outcome,
  ret, panic, ◌>>=◌, ◌>>◌, expect, assert, ltb, leb, nat_beq, if◌then◌else◌, length, take, drop,
}
use ink.Prelude.Result.{Result, ok, err}
use ink.Engine.Host.{Bytes, Host, u32_mod, u128_mod}
use ink.Engine.Database
use ink.Engine.DebugInfo
use ink.Engine.DebugInfo.{EmittedEvent}
use ink.Engine.ChainExtension
use ink.Engine.State.{Engine, Error, transfer_failed, key_not_found}
use ink.Engine.TestApi.{get_callee, get_balance}

-- `type Result`
abbrev pub ExtResult : Type 0
ExtResult = Result (Unit {0}) Error

-- Copies the slice into the buffer, which must have room for it.
unfoldable pub set_output : Bytes → Bytes → Outcome Bytes
set_output output slice = do
  assert (leb (length slice) (length output))
  ret (slice ++ drop (length slice) output)

-- `unwrap_or_default` on a balance.
abbrev pub unwrap_or_default {κ} : {E : Type κ} → Result ℕ E → ℕ
unwrap_or_default (ok n) = n
unwrap_or_default (err _) = 0

-- `-` and `+` of `u128`, as a debug build computes them.
abbrev pub sub_u128 : ℕ → ℕ → Outcome ℕ
sub_u128 a b = if leb b a then ret (a - b) else panic

abbrev pub add_u128 : ℕ → ℕ → Outcome ℕ
add_u128 a b = if ltb (a + b) u128_mod then ret (a + b) else panic

-- `usize` to `u32`, checked and by `as`.
abbrev pub to_u32 : ℕ → Outcome ℕ
to_u32 n = if ltb n u32_mod then ret n else panic

module _ ⦃host : Host⦄ where
  -- The part of `transfer` behind the reads: both balances were read before either is written.
  unfoldable pub move_balance : Bytes → Bytes → ℕ → ℕ → ℕ → Engine → Outcome (ExtResult × Engine)
  move_balance contract dest contract_old_balance dest_old_balance increment e = do
    left ← sub_u128 contract_old_balance increment
    let debited = Database.set_balance contract left e.database
    raised ← add_u128 dest_old_balance increment
    ret (ok tt, record e { database = Database.set_balance dest raised debited })

  unfoldable pub transfer : Bytes → Bytes → Engine → Outcome (ExtResult × Engine)
  unfolding move_balance
  transfer dest value e = elim (host.decode_u128 value) [
    | none ↦ ret (err transfer_failed, e)
    | some increment ↦ get_balance dest e >>= λ dest_balance. get_callee e >>= λ contract.
        get_balance contract e >>= λ contract_balance. elim contract_balance [
          | err _ ↦ ret (err transfer_failed, e)
          | ok contract_old_balance ↦
              move_balance contract dest contract_old_balance (unwrap_or_default dest_balance)
                increment e
        ]
  ]

  -- Both counters and the record of cells are written before the database is.
  unfoldable pub set_storage : Bytes → Bytes → Engine → Outcome (Option ℕ × Engine)
  set_storage key encoded_value e = do
    callee ← get_callee e
    let debug_info =
        DebugInfo.record_cell_for_account callee key (DebugInfo.inc_writes callee e.debug_info)
    let written = Database.insert_into_contract_storage callee key encoded_value e.database
    let e' = record e { debug_info = debug_info; database = written.1 }
    elim written.0 [ none ↦ ret (none, e') | some v ↦ to_u32 (length v) >>= λ n. ret (some n, e') ]

  -- The buffer and the engine come back beside the result.
  unfoldable pub get_storage : Bytes → Bytes → Engine → Outcome (ExtResult × Bytes × Engine)
  unfolding set_output
  get_storage key output e = do
    callee ← get_callee e
    let e' = record e { debug_info = DebugInfo.inc_reads callee e.debug_info }
    elim (Database.get_from_contract_storage callee key e.database) [
      | none ↦ ret (err key_not_found, output, e')
      | some val ↦ set_output output val >>= λ filled. ret (ok tt, filled, e')
    ]

  unfoldable pub take_storage : Bytes → Bytes → Engine → Outcome (ExtResult × Bytes × Engine)
  unfolding set_output
  take_storage key output e = do
    callee ← get_callee e
    let removed = Database.remove_contract_storage callee key e.database
    let e' = record e {
      debug_info = DebugInfo.inc_writes callee e.debug_info;
      database = removed.1;
    }
    elim removed.0 [
      | none ↦ ret (err key_not_found, output, e')
      | some val ↦ set_output output val >>= λ filled. ret (ok tt, filled, e')
    ]

  unfoldable pub contains_storage : Bytes → Engine → Outcome (Option ℕ × Engine)
  contains_storage key e = do
    callee ← get_callee e
    let e' = record e { debug_info = DebugInfo.inc_reads callee e.debug_info }
    elim (Database.get_from_contract_storage callee key e.database) [
      | none ↦ ret (none, e')
      | some val ↦ ret (some (length val % u32_mod), e')
    ]

  unfoldable pub clear_storage : Bytes → Engine → Outcome (Option ℕ × Engine)
  clear_storage key e = do
    callee ← get_callee e
    let debug_info =
        (DebugInfo.remove_cell_for_account callee key (DebugInfo.inc_writes callee e.debug_info)).1
    let removed = Database.remove_contract_storage callee key e.database
    let e' = record e { debug_info = debug_info; database = removed.1 }
    elim removed.0 [ none ↦ ret (none, e') | some val ↦ ret (some (length val % u32_mod), e') ]

  -- `terminate` never returns: it ends in `panic_any` with the payload that stands here.
  unfoldable pub terminate : Bytes → Engine → Outcome (Bytes × Engine)
  terminate beneficiary e = get_callee e >>= λ contract. get_balance contract e >>= λ balance.
      elim balance [
        | err _ ↦ panic
        | ok all ↦ transfer beneficiary (host.encode_u128 all) e >>= λ r. elim r.0 [
          | err _ ↦ panic
          | ok _ ↦ ret (host.encode_termination all beneficiary, r.1)
        ]
      ]
