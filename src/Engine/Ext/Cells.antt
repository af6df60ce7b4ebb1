-- ===== src/Engine/Ext/Cells.antt =====
-- The storage functions as updates of one map, and the record of the cells in use beside it.
use ink.Prelude.{
  ℕ, ◌≤◌, ◌≡◌, ◌≢◌, ◌↔◌, refl, sym, subst, ◌∙◌, Bool, true, Option, none, some, ret, ◌>>=◌, arith,
  length, beq_refl, if◌then◌else◌, ◌==◌, ◌&&◌, bytes_eq, ◌++◌, drop, Option-cases, inl, inr, [],
}
use ink.Prelude.HashMap
use ink.Prelude.HashMap.{HashMap}
use ink.Prelude.Result.{ok}
use ink.Engine.Host.{Bytes, Host, HostLaws}
use ink.Engine.Database
use ink.Engine.Database.Laws.{
  get_from_contract_storage-insert, get_from_contract_storage-remove, get_balance-insert,
}
use ink.Engine.DebugInfo
use ink.Engine.DebugInfo.{DebugInfo}
use ink.Engine.State.{Engine}
use ink.Engine.Ext.{set_storage, get_storage, take_storage, clear_storage}
use ink.Engine.Ext.Storage.{
  cell, after_set, after_clear, after_take, after_read, size_of, IsSmall, get_storage_hit,
  take_storage_hit, set_storage_state, clear_storage_state, set_storage_runs,
}

-- Whether the recorder lists a cell of an account.
abbrev pub recorded : Bytes → Bytes → DebugInfo → Option Bool
recorded a k d = elim (HashMap.get a d.cells_per_account) [
  | none ↦ none
  | some cells ↦ HashMap.get k cells
]

abbrev empty_cells : HashMap Bytes Bool
empty_cells = []

recorded-record_cell :
    (a c k j : Bytes) (d : DebugInfo)
    → recorded a k (DebugInfo.record_cell_for_account c j (DebugInfo.inc_writes c d))
      ≡ (if a == c && k == j then some true else recorded a k d)
unfolding DebugInfo.record_cell_for_account DebugInfo.inc_writes
recorded-record_cell a c k j d = elim (Option-cases (HashMap.get c d.cells_per_account)) [
  | inl e ↦ ground (
    arith,
    bytes_eq.decides a c,
    HashMap.get-upsert a c (HashMap.insert j true) (HashMap.insert j true []) d.cells_per_account,
    HashMap.get-insert k j true [],
    HashMap.get-empty {V = Bool} k,
  )
  | inr (cells, e) ↦ ground (
    arith,
    bytes_eq.decides a c,
    HashMap.get-upsert a c (HashMap.insert j true) (HashMap.insert j true []) d.cells_per_account,
    HashMap.get-insert k j true cells,
  )
]

recorded-remove_cell :
    (a c k j : Bytes) (d : DebugInfo)
    → recorded a k (DebugInfo.remove_cell_for_account c j (DebugInfo.inc_writes c d)).1
      ≡ (if a == c && k == j then none else recorded a k d)
unfolding DebugInfo.remove_cell_for_account DebugInfo.inc_writes
recorded-remove_cell a c k j d = elim (Option-cases (HashMap.get c d.cells_per_account)) [
  | inl e ↦ ground (arith, bytes_eq.decides a c)
  | inr (cells, e) ↦ ground (
    arith,
    bytes_eq.decides a c,
    HashMap.get-insert a c (HashMap.remove j cells) d.cells_per_account,
    HashMap.get-remove k j cells,
  )
]

module _ ⦃host : Host⦄ where
  -- The recorder lists exactly the cells that are in the database, for accounts of a length.
  abbrev pub Tracks : ℕ → Engine → Type 0
  Tracks n e =
      (a k : Bytes) → length a ≡ n → (recorded a k e.debug_info ≡ none) ↔ (cell a k e ≡ none)

module _ ⦃host : Host⦄ (laws : HostLaws host) where
  pub cell-after_set :
      (c j v : Bytes) (e : Engine) (a k : Bytes)
      → length a ≡ length c
      → cell a k (after_set c j v e) ≡ (if a == c && k == j then some v else cell a k e)
  cell-after_set c j v e a k h = get_from_contract_storage-insert laws a c k j v e.database h

  pub cell-after_clear :
      (c j : Bytes) (e : Engine) (a k : Bytes)
      → length a ≡ length c
      → cell a k (after_clear c j e) ≡ (if a == c && k == j then none else cell a k e)
  cell-after_clear c j e a k h = get_from_contract_storage-remove laws a c k j e.database h

  -- `set_storage` returns the size of the old value, which must be below 2 ^ 32. The cell of any
  -- account `a` of the callee's length at any key changes if it is the one written, and no balance
  -- does.
  pub set_storage_updates :
      (c j v a k : Bytes) (e : Engine)
      → e.exec_context.callee ≡ some c
      → IsSmall (cell c j e)
      → length a ≡ length c
      → (f : Engine) × (set_storage j v e ≡ ret (size_of (cell c j e), f))
        × (cell a k f ≡ (if a == c && k == j then some v else cell a k e))
        × (Database.get_balance a f.database ≡ Database.get_balance a e.database)
  set_storage_updates c j v a k e called small h = (
    after_set c j v e,
    set_storage_runs c e called j v small,
    cell-after_set c j v e a k h,
    get_balance-insert laws a c j v e.database,
  )

  -- A value that the callee has written is read back into a buffer that has room for it. The value
  -- that was there before must be shorter than 2 ^ 32.
  pub get_storage-set_storage :
      (c j v output : Bytes) (e : Engine)
      → e.exec_context.callee ≡ some c
      → IsSmall (cell c j e)
      → length v ≤ length output
      → (set_storage j v e >>= λ r. get_storage j output r.1)
        ≡ ret (ok tt, v ++ drop (length v) output, after_read c (after_set c j v e))
  get_storage-set_storage c j v output e called small fits =
      let f : Engine = after_set c j v e in
      let now : cell c j f ≡ some v =
        rw (cell-after_set c j v e c j refl) (rw (beq_refl c, beq_refl j)) in
      rw (set_storage_runs c e called j v small) (get_storage_hit c f called j output v now fits)

  after_set-Tracks :
      (n : ℕ) (c j v : Bytes) (e : Engine)
      → length c ≡ n
      → Tracks n e
      → Tracks n (after_set c j v e)
  after_set-Tracks n c j v e l t a k h = ground (
    arith,
    t a k h,
    recorded-record_cell a c k j e.debug_info,
    cell-after_set c j v e a k (h ∙ sym l),
  )

  after_clear-Tracks :
      (n : ℕ) (c j : Bytes) (e : Engine) → length c ≡ n → Tracks n e → Tracks n (after_clear c j e)
  after_clear-Tracks n c j e l t a k h = ground (
    arith,
    t a k h,
    recorded-remove_cell a c k j e.debug_info,
    cell-after_clear c j e a k (h ∙ sym l),
  )

  pub set_storage-Tracks :
      (n : ℕ) (c j v : Bytes) (e f : Engine) (r : Option ℕ)
      → e.exec_context.callee ≡ some c
      → length c ≡ n
      → set_storage j v e ≡ ret (r, f)
      → Tracks n e
      → Tracks n f
  set_storage-Tracks n c j v e f r called l run t =
      subst (Tracks n) (sym (set_storage_state c e called j v r f run))
        (after_set-Tracks n c j v e l t)

  pub clear_storage-Tracks :
      (n : ℕ) (c j : Bytes) (e f : Engine) (r : Option ℕ)
      → e.exec_context.callee ≡ some c
      → length c ≡ n
      → clear_storage j e ≡ ret (r, f)
      → Tracks n e
      → Tracks n f
  clear_storage-Tracks n c j e f r called l run t =
      subst (Tracks n) (sym (clear_storage_state c e called j r f run))
        (after_clear-Tracks n c j e l t)

  -- `take_storage` removes a cell and returns its value in a buffer that has room for it, and keeps the
  -- cell in the record of used cells if it was there.
  pub take_storage_keeps_record :
      (c j v output : Bytes) (e : Engine)
      → e.exec_context.callee ≡ some c
      → cell c j e ≡ some v
      → length v ≤ length output
      → recorded c j e.debug_info ≢ none
      → (f : Engine) × (take_storage j output e ≡ ret (ok tt, v ++ drop (length v) output, f))
        × (cell c j f ≡ none)
        × (recorded c j f.debug_info ≢ none)
  unfolding DebugInfo.inc_writes
  take_storage_keeps_record c j v output e called has fits listed = (
    after_take c j e,
    take_storage_hit c e called j output v has fits,
    rw (get_from_contract_storage-remove laws c c j j e.database refl)
        (rw (beq_refl c, beq_refl j)),
    listed,
  )
