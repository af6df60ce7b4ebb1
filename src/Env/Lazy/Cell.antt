-- ===== src/Env/Lazy/Cell.antt =====
-- What `Lazy` keeps, crates/storage/src/lazy/mod.rs, and that lazy values and mappings at other keys
-- are left alone.
use ink.Prelude.{
  ℕ, ◌≤◌, ◌≡◌, refl, ◌∙◌, Option, none, some, Bytes, bytes_eq, ret, arith, length, drop, beq_refl,
  if◌then◌else◌, ◌==◌,
}
use ink.Engine.Host.{Host, HostLaws}
use ink.Engine.State.{Engine}
use ink.Engine.Ext.Storage.{
  cell, after_set, after_read, IsSmall, get_storage_hit, get_storage_miss, set_storage_runs,
}
use ink.Engine.Ext.Cells.{cell-after_set}
use ink.Env.Backend.{
  Storable, StorableLaws, output_buffer, length-output_buffer, decode_output, get_contract_storage,
  set_contract_storage,
}
use ink.Env.Lazy.{Lazy, get, set, get_or_default}

-- What is stored for a lazy value.
abbrev pub lazy_cell : ⦃host : Host⦄ → ℕ → Bytes → Engine → Option Bytes
lazy_cell ⦃host⦄ key account e = cell account (host.encode_u32 key) e

module _ ⦃host : Host⦄ (laws : HostLaws host) (key : ℕ) {V : Type 0} (s : Storable V)
    (codec : StorableLaws s) (c : Bytes) (default : V) where
  -- Before a value is set, there is none, and the default is read.
  pub get-unset :
      (l : Lazy) (e : Engine)
      → e.exec_context.callee ≡ some c
      → lazy_cell key c e ≡ none
      → (get key s l e ≡ ret (none, after_read c e))
        × (get_or_default key s default l e ≡ ret (default, after_read c e))
  unfolding get get_or_default get_contract_storage decode_output
  get-unset l e called empty = (
    ground (arith, get_storage_miss c e called (host.encode_u32 key) output_buffer empty),
    ground (arith, get_storage_miss c e called (host.encode_u32 key) output_buffer empty),
  )

  get-stored :
      (l : Lazy) (v : V) (e : Engine)
      → e.exec_context.callee ≡ some c
      → lazy_cell key c e ≡ some (s.encode v)
      → length (s.encode v) ≤ 9600
      → (get key s l e ≡ ret (some v, after_read c e))
        × (get_or_default key s default l e ≡ ret (v, after_read c e))
  unfolding get get_or_default get_contract_storage decode_output
  get-stored l v e called has fits =
      let hit = get_storage_hit c e called (host.encode_u32 key) output_buffer (s.encode v) has in
      let decoded = codec.decode-encode v (drop (length (s.encode v)) output_buffer) in
      (
        ground (arith, length-output_buffer, hit, decoded),
        ground (arith, length-output_buffer, hit, decoded),
      )

  -- A value of at most 9600 bytes that is set is read back, by every lazy value of that key, and no
  -- other cell of the contract changes. The value that was there before must be shorter than 2 ^ 32.
  pub get-set :
      (l m : Lazy) (v : V) (e : Engine)
      → e.exec_context.callee ≡ some c
      → IsSmall (lazy_cell key c e)
      → length (s.encode v) ≤ 9600
      → (f : Engine) × (set key s v l e ≡ ret f)
        × (get key s m f ≡ ret (some v, after_read c f))
        × (get_or_default key s default m f ≡ ret (v, after_read c f))
        × ((k : Bytes)
            → cell c k f ≡ (if k == host.encode_u32 key then some (s.encode v) else cell c k e))
  unfolding set set_contract_storage
  get-set l m v e called small fits =
      let k = host.encode_u32 key in
      let f = after_set c k (s.encode v) e in
      let cells : (j : Bytes) → cell c j f ≡ (if j == k then some (s.encode v) else cell c j e) =
        λ j. cell-after_set laws c k (s.encode v) e c j refl ∙ rw (beq_refl c) refl in
      let read = get-stored m v f called (cells k ∙ rw (beq_refl k) refl) fits in
      (f, rw (set_storage_runs c e called k (s.encode v) small) refl, read.0, read.1, cells)
