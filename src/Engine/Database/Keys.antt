-- ===== src/Engine/Database/Keys.antt =====
-- The hashed keys of crates/engine/src/database.rs do not clash.
use ink.Prelude.{
  ◌≡◌, ◌≢◌, refl, sym, ap, ◌∙◌, ◌++◌, length, length-append, append-split_eq, arith, ◌==◌, false,
  beq-injective, beq_false_of_ne, bytes_eq, ◌&&◌, Bool-eq_of_iff,
}
use ink.Engine.Host.{Bytes, Host, HostLaws}
use ink.Engine.Database.{balance_of, storage_of, balance_of_key, storage_of_contract_key}

append_injective : (p x y : Bytes) → p ++ x ≡ p ++ y → x ≡ y
append_injective p x y e = (append-split_eq p x p y refl e).1

module _ ⦃host : Host⦄ (laws : HostLaws host) where
  keyed_injective : (p v w : Bytes) → host.to_keyed_vec v p ≡ host.to_keyed_vec w p → v ≡ w
  keyed_injective p v w e =
      laws.bytes_injective v w
        (append_injective p _ _ (sym (laws.keyed_vec v p) ∙ e ∙ laws.keyed_vec w p))

  pub balance_of_key_injective : (v w : Bytes) → balance_of_key v ≡ balance_of_key w → v ≡ w
  unfolding balance_of_key
  balance_of_key_injective v w e = keyed_injective balance_of v w (laws.no_collision _ _ e)

  -- For accounts of one length, equal storage keys stand for the same account and the same key.
  storage_of_contract_key_injective :
      (v w k j : Bytes)
      → length v ≡ length w
      → storage_of_contract_key v k ≡ storage_of_contract_key w j
      → (v ≡ w) × (k ≡ j)
  unfolding storage_of_contract_key
  storage_of_contract_key_injective v w k j h e =
      let inner : host.to_keyed_vec v k ≡ host.to_keyed_vec w j =
        keyed_injective storage_of _ _ (laws.no_collision _ _ e) in
      let parts : k ++ host.encode_bytes v ≡ j ++ host.encode_bytes w =
        sym (laws.keyed_vec v k) ∙ inner ∙ laws.keyed_vec w j in
      let same_length : length k ≡ length j = omega (
        arith,
        ap length parts,
        length-append k (host.encode_bytes v),
        length-append j (host.encode_bytes w),
        laws.bytes_length v w h,
      ) in
      let (keys, accounts) = append-split_eq k _ j _ same_length parts in
      (laws.bytes_injective v w accounts, keys)

  -- A balance and a storage cell never share a key.
  pub balance_of_key-ne-storage_of_contract_key :
      (v w k : Bytes) → balance_of_key v ≢ storage_of_contract_key w k
  unfolding balance_of_key storage_of_contract_key
  balance_of_key-ne-storage_of_contract_key v w k e =
      let same : balance_of ++ host.encode_bytes v
          ≡ storage_of ++ host.encode_bytes (host.to_keyed_vec w k) =
        sym (laws.keyed_vec v balance_of)
        ∙ laws.no_collision _ _ e
        ∙ laws.keyed_vec (host.to_keyed_vec w k) storage_of in
      ground (arith, same)

  pub balance_of_key-beq : (v w : Bytes) → (balance_of_key v == balance_of_key w) ≡ (v == w)
  balance_of_key-beq v w = beq-injective balance_of_key balance_of_key_injective v w

  same_storage_key :
      (v w k j : Bytes)
      → (v ≡ w) × (k ≡ j)
      → storage_of_contract_key v k ≡ storage_of_contract_key w j
  same_storage_key v w k j e = cc (e.0, e.1)

  pub storage_of_contract_key-beq :
      (v w k j : Bytes)
      → length v ≡ length w
      → (storage_of_contract_key v k == storage_of_contract_key w j) ≡ (v == w && k == j)
  storage_of_contract_key-beq v w k j h =
      Bool-eq_of_iff _ _
        (λ p. ground (
          arith,
          bytes_eq.decides v w,
          bytes_eq.decides k j,
          storage_of_contract_key_injective v w k j h
              ((bytes_eq.decides (storage_of_contract_key v k) (storage_of_contract_key w j)).0 p),
        ))
        (λ p.
          (bytes_eq.decides (storage_of_contract_key v k) (storage_of_contract_key w j)).1
            (same_storage_key v w k j (ground (arith, bytes_eq.decides v w, bytes_eq.decides k j))))

  pub balance_storage-beq :
      (v w k : Bytes) → (balance_of_key v == storage_of_contract_key w k) ≡ false
  balance_storage-beq v w k = beq_false_of_ne _ _ (balance_of_key-ne-storage_of_contract_key v w k)

  pub storage_balance-beq :
      (v w k : Bytes) → (storage_of_contract_key w k == balance_of_key v) ≡ false
  storage_balance-beq v w k =
      beq_false_of_ne _ _ (λ e. balance_of_key-ne-storage_of_contract_key v w k (sym e))
