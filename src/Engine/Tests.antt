-- ===== src/Engine/Tests.antt =====
-- Tests of the engine, after crates/engine/src/tests.rs and test_api.rs, and the theorems at
-- concrete states.
use ink.Prelude.{
  ◌≡◌, ◌≢◌, refl, none, some, ret, [], ◌∷◌, ◌++◌, arith, length, true, if◌then◌else◌, ◌==◌,
  bytes_eq, drop,
}
use ink.Prelude.HashMap
use ink.Prelude.Result.{ok}
use ink.Engine.Host.{Bytes}
use ink.Engine.Demo.{demo_host, demo_laws}
use ink.Engine.Database
use ink.Engine.DebugInfo
use ink.Engine.State
use ink.Engine.State.{Engine, key_not_found}
use ink.Engine.TestApi.{set_callee, set_balance}
use ink.Engine.Ext.{set_storage, take_storage, transfer}
use ink.Engine.Ext.Transfer.{Holds, SameRest, transfer_moves, transfer_to_self}
use ink.Engine.Ext.Storage.{cell, after_set, size_of, set_storage_runs}
use ink.Engine.Ext.Cells.{recorded, set_storage_updates, take_storage_keeps_record}
use ink.Engine.Steps.{Step, Reach, IsValid, Reach-IsValid}

abbrev alice : Bytes
alice = 1 ∷ 1 ∷ []

abbrev bob : Bytes
bob = 2 ∷ 2 ∷ []

abbrev funded : Engine
funded = set_balance alice 1337 (set_callee alice State.new)

funded-callee : funded.exec_context.callee ≡ some alice
unfolding set_balance set_callee
funded-callee = refl

alice-Holds : Holds alice (some 1337) funded
unfolding set_balance set_callee Database.get_balance Database.set_balance Database.balance_of_key
    HashMap.upsert HashMap.insert HashMap.get
alice-Holds = refl

bob-Holds : Holds bob none funded
unfolding set_balance set_callee Database.get_balance Database.set_balance Database.balance_of_key
    HashMap.upsert HashMap.insert HashMap.get
bob-Holds = refl

transfer_moves_example :
    (f : Engine) × (transfer bob (337 ∷ []) funded ≡ ret (ok tt, f))
    × Holds alice (some 1000) f
    × Holds bob (some 337) f
    × ((a : Bytes)
        → Database.get_balance a f.database ≡ (
            if a == bob
            then ret (some 337)
            else if a == alice
            then ret (some 1000)
            else Database.get_balance a funded.database))
    × SameRest funded f
transfer_moves_example =
    transfer_moves demo_laws bob alice (337 ∷ []) funded 1337 337 none refl funded-callee (cc)
      alice-Holds bob-Holds (omega arith) (omega arith) (omega arith)

transfer_to_self_example :
    (f : Engine) × (transfer alice (337 ∷ []) funded ≡ ret (ok tt, f)) × Holds alice (some 1674) f
transfer_to_self_example =
    transfer_to_self demo_laws alice (337 ∷ []) funded 1337 337 refl funded-callee alice-Holds
      (omega arith) (omega arith)

abbrev key : Bytes
key = 7 ∷ []

abbrev five : Bytes
five = 5 ∷ 5 ∷ 5 ∷ []

no_cell : cell alice key funded ≡ none
unfolding set_balance set_callee Database.get_from_contract_storage Database.set_balance
    Database.balance_of_key Database.storage_of_contract_key HashMap.upsert HashMap.insert
    HashMap.get
no_cell = refl

set_storage_updates_example :
    (f : Engine) × (set_storage key five funded ≡ ret (size_of (cell alice key funded), f))
    × (cell bob key f ≡ cell bob key funded)
    × (Database.get_balance bob f.database ≡ Database.get_balance bob funded.database)
set_storage_updates_example =
    set_storage_updates demo_laws alice key five bob key funded funded-callee (rw no_cell tt) refl

-- A cell that was written, then taken.
abbrev stored : Engine
stored = after_set alice key five funded

stored-cell : cell alice key stored ≡ some five
unfolding set_balance set_callee Database.get_from_contract_storage Database.set_balance
    Database.insert_into_contract_storage Database.balance_of_key Database.storage_of_contract_key
    HashMap.upsert HashMap.insert HashMap.get
stored-cell = refl

stored-recorded : recorded alice key stored.debug_info ≡ some true
unfolding set_balance set_callee DebugInfo.record_cell_for_account DebugInfo.inc_writes
    HashMap.upsert HashMap.insert HashMap.get
stored-recorded = refl

take_storage_keeps_record_example :
    (f : Engine) × (take_storage key five stored ≡ ret (ok tt, five ++ drop (length five) five, f))
    × (cell alice key f ≡ none)
    × (recorded alice key f.debug_info ≢ none)
take_storage_keeps_record_example =
    take_storage_keeps_record demo_laws alice key five five stored funded-callee stored-cell
      (omega arith) (rw stored-recorded (cc))

-- A callee is set, and writes.
abbrev called : Engine
called = set_callee alice State.new

called-callee : called.exec_context.callee ≡ some alice
unfolding set_callee
called-callee = refl

called-cell : cell alice key called ≡ none
unfolding set_callee Database.get_from_contract_storage HashMap.get
called-cell = refl

writing_run : Reach 2 (after_set alice key five called)
writing_run = Reach.next (Reach.next Reach.here (Step.becomes alice refl)) (
    Step.sets key five (size_of (cell alice key called)) (after_set alice key five called)
      (set_storage_runs alice called called-callee key five (rw called-cell tt)))

Reach-IsValid_example : IsValid 2 (after_set alice key five called)
Reach-IsValid_example = Reach-IsValid demo_laws 2 writing_run
