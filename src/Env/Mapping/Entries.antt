-- ===== src/Env/Mapping/Entries.antt =====
-- What the operations of `Mapping` do to its entries, crates/storage/src/lazy/mapping.rs.
use ink.Prelude.{
  ℕ, ◌≡◌, ◌≤◌, refl, ◌∙◌, false, Option, none, some, Bytes, ret, arith, length, drop,
  append-split_eq, beq-injective, ◌==◌, bytes_eq, beq_refl, if◌then◌else◌,
}
use ink.Engine.Host.{Host, HostLaws}
use ink.Engine.State.{Engine}
use ink.Engine.Ext.Storage.{
  cell, after_set, after_clear, after_take, after_read, size_of, IsSmall, set_storage_runs,
  get_storage_hit, get_storage_miss, take_storage_hit, contains_storage_runs, clear_storage_runs,
}
use ink.Engine.Database.Laws.{get_from_contract_storage-remove}
use ink.Engine.Ext.Cells.{cell-after_set, cell-after_clear}
use ink.Env.Backend.{
  Storable, StorableLaws, output_buffer, length-output_buffer, decode_output, set_contract_storage,
  get_contract_storage, take_contract_storage, contains_contract_storage, clear_contract_storage,
}
use ink.Env.Mapping.{entry_key, insert, get, take_entry, contains, remove}

-- An entry, as it is stored.
abbrev pub stored : ⦃host : Host⦄ → ℕ → Bytes → Bytes → Engine → Option Bytes
stored prefix account key e = cell account (entry_key prefix key) e

module _ ⦃host : Host⦄ (laws : HostLaws host) (prefix : ℕ) {V : Type 0} (s : Storable V)
    (codec : StorableLaws s) where
  module _ (c : Bytes) (e : Engine) (called : e.exec_context.callee ≡ some c) where
    get-some :
        (key : Bytes) (v : V)
        → stored prefix c key e ≡ some (s.encode v)
        → length (s.encode v) ≤ 9600
        → get prefix s key e ≡ ret (some v, after_read c e)
    unfolding get get_contract_storage decode_output
    get-some key v has fits = ground (
      arith,
      length-output_buffer,
      get_storage_hit c e called (entry_key prefix key) output_buffer (s.encode v) has,
      codec.decode-encode v (drop (length (s.encode v)) output_buffer),
    )

    get-none :
        (key : Bytes)
        → stored prefix c key e ≡ none
        → get prefix s key e ≡ ret (none, after_read c e)
    unfolding get get_contract_storage decode_output
    get-none key has =
        ground (arith, get_storage_miss c e called (entry_key prefix key) output_buffer has)

    take_some :
        (key : Bytes) (v : V)
        → stored prefix c key e ≡ some (s.encode v)
        → length (s.encode v) ≤ 9600
        → take_entry prefix s key e ≡ ret (some v, after_take c (entry_key prefix key) e)
    unfolding take_entry take_contract_storage decode_output
    take_some key v has fits = ground (
      arith,
      length-output_buffer,
      take_storage_hit c e called (entry_key prefix key) output_buffer (s.encode v) has,
      codec.decode-encode v (drop (length (s.encode v)) output_buffer),
    )

  entry_key-injective : (j k : Bytes) → entry_key prefix j ≡ entry_key prefix k → j ≡ k
  unfolding entry_key
  entry_key-injective j k e = (append-split_eq (host.encode_u32 prefix) j _ k refl e).1

  entry_key-beq : (j k : Bytes) → (entry_key prefix j == entry_key prefix k) ≡ (j == k)
  entry_key-beq j k = beq-injective (entry_key prefix) entry_key-injective j k

  -- A value of at most 9600 bytes that is inserted is read back, and no other entry changes. The
  -- value that was there before must be shorter than 2 ^ 32.
  pub get-insert :
      (c key : Bytes) (v : V) (e : Engine)
      → e.exec_context.callee ≡ some c
      → IsSmall (stored prefix c key e)
      → length (s.encode v) ≤ 9600
      → (f : Engine) × (insert prefix s key v e ≡ ret (size_of (stored prefix c key e), f))
        × (get prefix s key f ≡ ret (some v, after_read c f))
        × ((j : Bytes)
            → stored prefix c j f ≡ (if j == key then some (s.encode v) else stored prefix c j e))
  unfolding insert set_contract_storage
  get-insert c key v e called small fits =
      let k = entry_key prefix key in
      let f = after_set c k (s.encode v) e in
      let entries : (j : Bytes)
          → stored prefix c j f ≡ (if j == key then some (s.encode v) else stored prefix c j e) =
        λ j.
          rw (cell-after_set laws c k (s.encode v) e c (entry_key prefix j) refl)
            (rw (beq_refl c, entry_key-beq j key) refl) in
      (
        f,
        set_storage_runs c e called k (s.encode v) small,
        get-some c f called key v (entries key ∙ rw (beq_refl key) refl) fits,
        entries,
      )

  -- An entry that is removed is gone, for `get` and `contains`, and no other entry changes.
  pub get-remove :
      (c key : Bytes) (e : Engine)
      → e.exec_context.callee ≡ some c
      → (f : Engine) × (remove prefix key e ≡ ret f)
        × (get prefix s key f ≡ ret (none, after_read c f))
        × (contains prefix key f ≡ ret (false, after_read c f))
        × ((j : Bytes) → stored prefix c j f ≡ (if j == key then none else stored prefix c j e))
  unfolding remove contains contains_contract_storage clear_contract_storage
  get-remove c key e called =
      let k = entry_key prefix key in
      let f = after_clear c k e in
      let entries : (j : Bytes)
          → stored prefix c j f ≡ (if j == key then none else stored prefix c j e) =
        λ j.
          rw (cell-after_clear laws c k e c (entry_key prefix j) refl)
            (rw (beq_refl c, entry_key-beq j key) refl) in
      let gone : stored prefix c key f ≡ none = entries key ∙ rw (beq_refl key) refl in
      (
        f,
        rw (clear_storage_runs c e called k) refl,
        get-none c f called key gone,
        ground (arith, contains_storage_runs c f called k, gone),
        entries,
      )

  -- An entry of at most 9600 bytes that is taken is returned, and gone.
  get-take_entry :
      (c key : Bytes) (v : V) (e : Engine)
      → e.exec_context.callee ≡ some c
      → stored prefix c key e ≡ some (s.encode v)
      → length (s.encode v) ≤ 9600
      → (f : Engine) × (take_entry prefix s key e ≡ ret (some v, f))
        × (get prefix s key f ≡ ret (none, after_read c f))
  get-take_entry c key v e called has fits =
      let k = entry_key prefix key in
      let f = after_take c k e in
      (
        f,
        take_some c e called key v has fits,
        get-none c f called key (
            rw (get_from_contract_storage-remove laws c c k k e.database refl)
              (rw (beq_refl c, beq_refl k))),
      )
