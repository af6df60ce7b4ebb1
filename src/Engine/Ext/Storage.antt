-- ===== src/Engine/Ext/Storage.antt =====
-- What the storage functions of the engine do, and the record of the cells in use.
use ink.Prelude.{
  ℕ, ◌%◌, ◌≤◌, ◌<◌, ◌≡◌, Option, none, some, ◌++◌, ret, arith, length, drop, le→leb, bytes_eq,
  Option-cases, inl, inr,
}
use ink.Prelude.Result.{ok, err}
use ink.Engine.Host.{Bytes, Host, u32_mod}
use ink.Engine.Database
use ink.Engine.Database.Laws.{insert_into_contract_storage-old, remove_contract_storage-old}
use ink.Engine.DebugInfo
use ink.Engine.DebugInfo.{DebugInfo}
use ink.Engine.State.{Engine, key_not_found}
use ink.Engine.TestApi.{get_callee}
use ink.Engine.Ext.{
  set_storage, get_storage, take_storage, contains_storage, clear_storage, set_output, ExtResult,
}

module _ ⦃host : Host⦄ where
  abbrev pub cell : Bytes → Bytes → Engine → Option Bytes
  cell account key e = Database.get_from_contract_storage account key e.database

  pub set_output_fits :
      (output slice : Bytes)
      → length slice ≤ length output
      → set_output output slice ≡ ret (slice ++ drop (length slice) output)
  unfolding set_output
  set_output_fits output slice h = rw (le→leb _ _ h)

  -- The engine after a write, after a removal that forgets the cell, and after one that does not.
  abbrev pub after_set : Bytes → Bytes → Bytes → Engine → Engine
  after_set callee key value e = record e {
    debug_info =
        DebugInfo.record_cell_for_account callee key (DebugInfo.inc_writes callee e.debug_info);
    database = (Database.insert_into_contract_storage callee key value e.database).1;
  }

  abbrev pub after_clear : Bytes → Bytes → Engine → Engine
  after_clear callee key e = record e {
    debug_info =
        (DebugInfo.remove_cell_for_account callee key (DebugInfo.inc_writes callee e.debug_info)).1;
    database = (Database.remove_contract_storage callee key e.database).1;
  }

  abbrev pub after_take : Bytes → Bytes → Engine → Engine
  after_take callee key e = record e {
    debug_info = DebugInfo.inc_writes callee e.debug_info;
    database = (Database.remove_contract_storage callee key e.database).1;
  }

  abbrev pub after_read : Bytes → Engine → Engine
  after_read callee e = record e { debug_info = DebugInfo.inc_reads callee e.debug_info }

  -- The size of a cell, as the host functions report it.
  abbrev pub size_of : Option Bytes → Option ℕ
  size_of none = none
  size_of (some v) = some (length v % u32_mod)

  -- What a read leaves in the buffer, and its result.
  abbrev pub read_of : Option Bytes → Bytes → ExtResult × Bytes
  read_of none output = (err key_not_found, output)
  read_of (some v) output = (ok tt, v ++ drop (length v) output)

  abbrev pub Fits : Option Bytes → Bytes → Type 0
  Fits none output = Unit
  Fits (some v) output = length v ≤ length output

  abbrev pub IsSmall : Option Bytes → Type 0
  IsSmall none = Unit
  IsSmall (some v) = length v < u32_mod

  module _ (callee : Bytes) (e : Engine) (called : e.exec_context.callee ≡ some callee) where
    pub set_storage_runs :
        (key value : Bytes)
        → IsSmall (cell callee key e)
        → set_storage key value e ≡ ret (size_of (cell callee key e), after_set callee key value e)
    unfolding set_storage get_callee
    set_storage_runs key value small = elim (Option-cases (cell callee key e)) [
      | inl o ↦ ground (arith, insert_into_contract_storage-old callee key value e.database)
      | inr (v, o) ↦ ground (arith, insert_into_contract_storage-old callee key value e.database)
    ]

    pub get_storage_runs :
        (key output : Bytes)
        → Fits (cell callee key e) output
        → let (r, filled) = read_of (cell callee key e) output in
          get_storage key output e ≡ ret (r, filled, after_read callee e)
    unfolding get_storage get_callee
    get_storage_runs key output fits = ground arith

    pub take_storage_runs :
        (key output : Bytes)
        → Fits (cell callee key e) output
        → let (r, filled) = read_of (cell callee key e) output in
          take_storage key output e ≡ ret (r, filled, after_take callee key e)
    unfolding take_storage get_callee
    take_storage_runs key output fits =
        ground (arith, remove_contract_storage-old callee key e.database)

    pub contains_storage_runs :
        (key : Bytes)
        → contains_storage key e ≡ ret (size_of (cell callee key e), after_read callee e)
    unfolding contains_storage get_callee
    contains_storage_runs key = ground arith

    pub clear_storage_runs :
        (key : Bytes)
        → clear_storage key e ≡ ret (size_of (cell callee key e), after_clear callee key e)
    unfolding clear_storage get_callee
    clear_storage_runs key = ground (arith, remove_contract_storage-old callee key e.database)

    pub get_storage_hit :
        (key output v : Bytes)
        → cell callee key e ≡ some v
        → length v ≤ length output
        → get_storage key output e ≡ ret (ok tt, v ++ drop (length v) output, after_read callee e)
    unfolding get_storage get_callee
    get_storage_hit key output v has fits = ground arith

    pub get_storage_miss :
        (key output : Bytes)
        → cell callee key e ≡ none
        → get_storage key output e ≡ ret (err key_not_found, output, after_read callee e)
    unfolding get_storage get_callee
    get_storage_miss key output has = ground arith

    pub take_storage_hit :
        (key output v : Bytes)
        → cell callee key e ≡ some v
        → length v ≤ length output
        → take_storage key output e
          ≡ ret (ok tt, v ++ drop (length v) output, after_take callee key e)
    unfolding take_storage get_callee
    take_storage_hit key output v has fits =
        ground (arith, remove_contract_storage-old callee key e.database)

    -- A call that returns has this state.
    pub set_storage_state :
        (key value : Bytes) (r : Option ℕ) (f : Engine)
        → set_storage key value e ≡ ret (r, f)
        → f ≡ after_set callee key value e
    unfolding set_storage get_callee
    set_storage_state key value r f run = ground arith

    pub clear_storage_state :
        (key : Bytes) (r : Option ℕ) (f : Engine)
        → clear_storage key e ≡ ret (r, f)
        → f ≡ after_clear callee key e
    unfolding clear_storage get_callee
    clear_storage_state key r f run = ground arith

    pub get_storage_state :
        (key output filled : Bytes) (r : ExtResult) (f : Engine)
        → get_storage key output e ≡ ret (r, filled, f)
        → f ≡ after_read callee e
    unfolding get_storage get_callee
    get_storage_state key output filled r f run = ground arith

    pub contains_storage_state :
        (key : Bytes) (r : Option ℕ) (f : Engine)
        → contains_storage key e ≡ ret (r, f)
        → f ≡ after_read callee e
    unfolding contains_storage get_callee
    contains_storage_state key r f run = ground arith
