-- ===== src/Engine/Host.antt =====
-- What the engine calls of other crates: SCALE encoding (parity-scale-codec) and BLAKE2 (blake2,
-- behind crates/engine/src/hashing.rs). The operations are parameters; what the theorems use of
-- them is the second record.
pub use ink.Prelude.{Bytes}
use ink.Prelude.{ℕ, ◌<◌, ◌^◌, ◌≡◌, Option, some, [], ◌∷◌, ◌++◌, length}

abbrev pub u32_mod : ℕ
u32_mod = 2 ^ 32

abbrev pub u64_mod : ℕ
u64_mod = 2 ^ 64

abbrev pub u128_mod : ℕ
u128_mod = 2 ^ 128

pub record Host : Type 0 where
  -- `blake2b_256`
  pub blake2b_256 : Bytes → Bytes
  -- `KeyedVec::to_keyed_vec` of a `Vec<u8>`: the value, then the prefix
  pub to_keyed_vec : Bytes → Bytes → Bytes
  -- `Encode::encode` of a `Vec<u8>` or `&[u8]`, a `u32`, a `u64` and a `u128`
  pub encode_bytes : Bytes → Bytes
  pub encode_u32 : ℕ → Bytes
  pub encode_u64 : ℕ → Bytes
  pub encode_u128 : ℕ → Bytes
  -- `<u128 as Decode>::decode` on a slice, whose rest is dropped
  pub decode_u128 : Bytes → Option ℕ
  -- `Compact<u32>`
  pub encode_compact_u32 : ℕ → Bytes
  pub decode_compact_u32 : Bytes → Option ℕ
  -- `Encode::encode` of a `(u32, &[u8])` and of a `(u128, Vec<u8>)`
  pub encode_status : ℕ → Bytes → Bytes
  pub encode_termination : ℕ → Bytes → Bytes

-- The documented behaviour of these crates; for the hash, that no two inputs collide.
pub record HostLaws (host : Host) : Type 0 where
  pub no_collision : (x y : Bytes) → host.blake2b_256 x ≡ host.blake2b_256 y → x ≡ y
  pub keyed_vec : (v prefix : Bytes) → host.to_keyed_vec v prefix ≡ prefix ++ host.encode_bytes v
  pub bytes_injective : (v w : Bytes) → host.encode_bytes v ≡ host.encode_bytes w → v ≡ w
  -- The length prefix has a size that depends on the length alone.
  pub bytes_length :
      (v w : Bytes)
      → length v ≡ length w
      → length (host.encode_bytes v) ≡ length (host.encode_bytes w)
  pub decode-encode_u128 : (n : ℕ) → n < u128_mod → host.decode_u128 (host.encode_u128 n) ≡ some n
  -- A compact number below 64 is one byte.
  pub compact_byte : (n : ℕ) → n < 64 → (b : ℕ) × (host.encode_compact_u32 n ≡ b ∷ [])
  pub decode-encode_compact :
      (n : ℕ) → n < u32_mod → host.decode_compact_u32 (host.encode_compact_u32 n) ≡ some n
