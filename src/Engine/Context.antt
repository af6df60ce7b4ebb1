-- ===== src/Engine/Context.antt =====
-- The context of a contract execution, crates/engine/src/exec_context.rs and types.rs.
use ink.Prelude.{ℕ, Option, none, List, [], Outcome, expect}
use ink.Engine.Host.{Bytes}

-- `AccountId`, a `Vec<u8>`; `from_bytes` and `as_bytes` copy.
abbrev pub AccountId : Type 0
AccountId = Bytes

pub record ExecContext : Type 0 where
  pub caller : Option AccountId
  pub callee : Option AccountId
  pub value_transferred : ℕ
  pub block_number : ℕ
  pub block_timestamp : ℕ
  pub contracts : List Bytes

-- `new`: the derived `Default`
abbrev pub new : ExecContext
new = record {
  caller = none;
  callee = none;
  value_transferred = 0;
  block_number = 0;
  block_timestamp = 0;
  contracts = [];
}

-- `ExecContext::callee` panics where no callee has been set.
unfoldable pub callee : ExecContext → Outcome Bytes
callee c = expect c.callee

unfoldable pub reset : ExecContext → ExecContext
reset c = new

unfoldable pub set_block_timestamp : ℕ → ExecContext → ExecContext
set_block_timestamp t c = record c { block_timestamp = t }

unfoldable pub set_block_number : ℕ → ExecContext → ExecContext
set_block_number n c = record c { block_number = n }
