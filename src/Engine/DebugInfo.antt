-- ===== src/Engine/DebugInfo.antt =====
-- The recorder of crates/engine/src/test_api.rs. Its counters are `usize`s that no run can exhaust:
-- they are kept as plain numbers.
use Prim.Native.String.{String}
use ink.Prelude.{ℕ, ◌+◌, Bool, true, Option, none, some, List, [], ◌∷◌, ◌++◌, bytes_eq}
use ink.Prelude.HashMap
use ink.Prelude.HashMap.{HashMap}
use ink.Engine.Host.{Bytes}
use ink.Engine.Context.{AccountId}

pub record EmittedEvent : Type 0 where
  pub topics : List Bytes
  pub payload : Bytes

pub record DebugInfo : Type 0 where
  pub emitted_events : List EmittedEvent
  pub emitted_debug_messages : List String
  pub count_reads : HashMap AccountId ℕ
  pub count_writes : HashMap AccountId ℕ
  pub cells_per_account : HashMap AccountId (HashMap Bytes Bool)

abbrev pub new : DebugInfo
new = record {
  emitted_events = [];
  emitted_debug_messages = [];
  count_reads = [];
  count_writes = [];
  cells_per_account = [];
}

-- Every collection is cleared.
unfoldable pub reset : DebugInfo → DebugInfo
reset d = new

abbrev increment : AccountId → HashMap AccountId ℕ → HashMap AccountId ℕ
increment account_id m = HashMap.upsert account_id (λ v. v + 1) 1 m

unfoldable pub inc_writes : AccountId → DebugInfo → DebugInfo
inc_writes account_id d = record d { count_writes = increment account_id d.count_writes }

unfoldable pub inc_reads : AccountId → DebugInfo → DebugInfo
inc_reads account_id d = record d { count_reads = increment account_id d.count_reads }

unfoldable pub record_cell_for_account : AccountId → Bytes → DebugInfo → DebugInfo
record_cell_for_account account_id key d = record d {
  cells_per_account =
      HashMap.upsert account_id (HashMap.insert key true) (HashMap.insert key true [])
        d.cells_per_account;
}

-- Returns the removed cell, if there was one.
unfoldable pub remove_cell_for_account : AccountId → Bytes → DebugInfo → Option Bool × DebugInfo
remove_cell_for_account account_id key d = elim (HashMap.get account_id d.cells_per_account) [
  | none ↦ (none, d)
  | some hm ↦ (
    HashMap.get key hm,
    record d {
      cells_per_account = HashMap.insert account_id (HashMap.remove key hm) d.cells_per_account;
    },
  )
]

unfoldable pub record_debug_message : String → DebugInfo → DebugInfo
record_debug_message message d = record d {
  emitted_debug_messages = d.emitted_debug_messages ++ message ∷ [];
}

unfoldable pub record_event : EmittedEvent → DebugInfo → DebugInfo
record_event event d = record d { emitted_events = d.emitted_events ++ event ∷ [] }
