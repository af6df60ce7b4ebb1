-- ===== src/Engine/Demo.antt =====
-- A host that meets the laws: the hash is the identity, a number is encoded as one element, and a
-- byte vector has its length in front.
use ink.Prelude.{ℕ, refl, Option, none, some, [], ◌∷◌, ◌++◌, length, arith}
use ink.Engine.Host.{Bytes, Host, HostLaws}

abbrev first : Bytes → Option ℕ
first [] = none
first (b ∷ _) = some b

instance abbrev pub demo_host : Host
demo_host = record {
  blake2b_256 = λ x. x;
  to_keyed_vec = λ v prefix. prefix ++ length v ∷ v;
  encode_bytes = λ v. length v ∷ v;
  encode_u32 = λ n. n ∷ [];
  encode_u64 = λ n. n ∷ [];
  encode_u128 = λ n. n ∷ [];
  decode_u128 = first;
  encode_compact_u32 = λ n. n ∷ [];
  decode_compact_u32 = first;
  encode_status = λ status out. status ∷ length out ∷ out;
  encode_termination = λ all beneficiary. all ∷ length beneficiary ∷ beneficiary;
}

pub demo_laws : HostLaws demo_host
demo_laws = record {
  no_collision = λ x y e. e;
  keyed_vec = λ v prefix. refl;
  bytes_injective = λ v w e. cc e;
  bytes_length = λ v w e. omega arith;
  decode-encode_u128 = λ n h. refl;
  compact_byte = λ n h. (n, refl);
  decode-encode_compact = λ n h. refl;
}
