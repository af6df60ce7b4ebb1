-- ===== src/Engine/TestApi.antt =====
-- The interface that tests drive the engine by, crates/engine/src/test_api.rs. The sums that the
-- source writes with `+=` panic where they leave their type, as they do in a debug build.
use Prim.Native.String.{String}
use ink.Prelude.{
  ℕ, ◌+◌, Bool, false, ◌||◌, Option, none, some, List, [], ◌∷◌, ◌++◌, Outcome, ret, ◌>>=◌, ◌>>◌,
  assert, ltb, length, bytes_eq, ◌==◌,
}
use ink.Prelude.HashMap
use ink.Prelude.HashMap.{HashMap}
use ink.Prelude.Result.{Result, ok, err, ok_or}
use ink.Engine.Host.{Bytes, Host, u32_mod, u64_mod}
use ink.Engine.Database
use ink.Engine.Context
use ink.Engine.Context.{ExecContext, AccountId}
use ink.Engine.DebugInfo
use ink.Engine.DebugInfo.{DebugInfo, EmittedEvent}
use ink.Engine.State.{Engine, ApiError, account, no_account_for_id}

unfoldable pub initialize_or_reset : Engine → Engine
unfolding Context.reset Database.clear DebugInfo.reset
initialize_or_reset e = record e {
  exec_context = Context.reset e.exec_context;
  database = Database.clear e.database;
  debug_info = DebugInfo.reset e.debug_info;
}

abbrev or_zero : Option ℕ → ℕ
or_zero none = 0
or_zero (some n) = n

-- The reads and the writes of one account.
unfoldable pub get_contract_storage_rw : Bytes → Engine → ℕ × ℕ
get_contract_storage_rw account_id e = (
  or_zero (HashMap.get account_id e.debug_info.count_reads),
  or_zero (HashMap.get account_id e.debug_info.count_writes),
)

-- `values().sum()`
unfoldable pub sum_values : HashMap AccountId ℕ → ℕ
sum_values [] = 0
sum_values ((_, n) ∷ m) = n + sum_values m

unfoldable pub count_reads : Engine → ℕ
unfolding sum_values
count_reads e = sum_values e.debug_info.count_reads

unfoldable pub count_writes : Engine → ℕ
unfolding sum_values
count_writes e = sum_values e.debug_info.count_writes

unfoldable pub set_caller : Bytes → Engine → Engine
set_caller caller e = record e { exec_context = record e.exec_context { caller = some caller } }

unfoldable pub set_contract : Bytes → Engine → Engine
set_contract caller e = record e {
  exec_context = record e.exec_context { contracts = e.exec_context.contracts ++ caller ∷ [] };
}

unfoldable pub set_callee : Bytes → Engine → Engine
set_callee callee e = record e { exec_context = record e.exec_context { callee = some callee } }

unfoldable pub count_used_storage_cells : Bytes → Engine → Result ℕ ApiError
count_used_storage_cells account_id e =
    elim (HashMap.get account_id e.debug_info.cells_per_account) [
      | none ↦ err (account (no_account_for_id account_id))
      | some cells ↦ ok (length cells)
    ]

-- `block_number` is a `u32`, `block_timestamp` a `u64`.
unfoldable pub advance_block : Engine → Outcome Engine
advance_block e = do
  assert (ltb (e.exec_context.block_number + 1) u32_mod)
  assert (ltb (e.exec_context.block_timestamp + e.chain_spec.block_time) u64_mod)
  ret (record e {
    exec_context = record e.exec_context {
      block_number = e.exec_context.block_number + 1;
      block_timestamp = e.exec_context.block_timestamp + e.chain_spec.block_time;
    };
  })

unfoldable pub get_callee : Engine → Outcome Bytes
unfolding Context.callee
get_callee e = Context.callee e.exec_context

unfoldable pub contains : Bytes → List Bytes → Bool
contains account_id [] = false
contains account_id (c ∷ cs) = account_id == c || contains account_id cs

unfoldable pub is_contract : Bytes → Engine → Bool
unfolding contains
is_contract account_id e = contains account_id e.exec_context.contracts

unfoldable pub get_emitted_debug_messages : Engine → List String
get_emitted_debug_messages e = e.debug_info.emitted_debug_messages

unfoldable pub get_emitted_events : Engine → List EmittedEvent
get_emitted_events e = e.debug_info.emitted_events

module _ ⦃host : Host⦄ where
  unfoldable pub get_balance : Bytes → Engine → Outcome (Result ℕ ApiError)
  get_balance account_id e = do
    balance ← Database.get_balance account_id e.database
    ret (ok_or (account (no_account_for_id account_id)) balance)

  unfoldable pub set_balance : Bytes → ℕ → Engine → Engine
  set_balance account_id new_balance e = record e {
    database = Database.set_balance account_id new_balance e.database;
  }

unfoldable pub set_value_transferred : ℕ → Engine → Engine
set_value_transferred value e = record e {
  exec_context = record e.exec_context { value_transferred = value };
}

-- These two write the fields themselves, and do not call the setters of `ExecContext`.
unfoldable pub set_block_timestamp : ℕ → Engine → Engine
set_block_timestamp t e = record e { exec_context = record e.exec_context { block_timestamp = t } }

unfoldable pub set_block_number : ℕ → Engine → Engine
set_block_number n e = record e { exec_context = record e.exec_context { block_number = n } }
