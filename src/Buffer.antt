-- ===== src/Buffer.antt =====
-- The static buffer of the on-chain environment, crates/env/src/engine/on_chain/buffer.rs. A slice
-- is its bytes: the borrows keep the slices that are handed out apart. The `debug_assert`s are
-- checked; where they are compiled out, the indexing that follows panics on the same inputs, save
-- for the assertions on `offset` and the one of `take_rest`. The encoding of a value (the crate scale) is the list of the
-- writes it makes.
pub mod Pieces
mod Tests
use ink.Prelude.{
  ℕ, ◌+◌, Bool, true, false, not, nat_beq, leb, List, [], ◌∷◌, ◌++◌, Bytes, length, take, drop,
  replicate, Outcome, ret, panic, assert, ◌>>=◌, ◌>>◌, if◌then◌else◌,
}

-- `EncodeScope`
pub record EncodeScope : Type 0 where
  pub buffer : Bytes
  pub len : ℕ

-- `&mut [u8]` becomes an `EncodeScope`.
abbrev pub scope_from : Bytes → EncodeScope
scope_from buffer = record { buffer = buffer; len = 0 }

abbrev pub capacity : EncodeScope → ℕ
capacity s = length s.buffer

-- `buffer[start..start + bytes.len()].copy_from_slice(bytes)`
unfoldable pub copy_from_slice : Bytes → ℕ → Bytes → Bytes
copy_from_slice buffer start bytes =
    take start buffer ++ (bytes ++ drop (start + length bytes) buffer)

unfoldable pub write : Bytes → EncodeScope → Outcome EncodeScope
unfolding copy_from_slice
write bytes s = do
  assert (leb (s.len + length bytes) (capacity s))
  ret (record { buffer = copy_from_slice s.buffer s.len bytes; len = s.len + length bytes })

unfoldable pub push_byte : ℕ → EncodeScope → Outcome EncodeScope
unfolding copy_from_slice
push_byte byte s = do
  assert (not (nat_beq s.len (capacity s)))
  ret (record { buffer = copy_from_slice s.buffer s.len (byte ∷ []); len = s.len + 1 })

-- `encode_to`: the pieces are written one after the other.
unfoldable pub encode_to : List Bytes → EncodeScope → Outcome EncodeScope
unfolding write
encode_to [] s = ret s
encode_to (piece ∷ pieces) s = do s' ← write piece s; encode_to pieces s'

-- `ScopedBuffer`
pub record ScopedBuffer : Type 0 where
  pub offset : ℕ
  pub buffer : Bytes

abbrev pub buffer_from : Bytes → ScopedBuffer
buffer_from buffer = record { offset = 0; buffer = buffer }

-- `[offset..]`, which panics past the end
abbrev pub from_offset : ℕ → Bytes → Outcome Bytes
from_offset offset buffer = do assert (leb offset (length buffer)); ret (drop offset buffer)

unfoldable pub split : ScopedBuffer → Outcome ScopedBuffer
split b = do buffer ← from_offset b.offset b.buffer; ret (buffer_from buffer)

-- The slice taken, and the buffer left.
unfoldable pub take_slice : ℕ → ScopedBuffer → Outcome (Bytes × ScopedBuffer)
take_slice len b = do
  assert (nat_beq b.offset 0)
  assert (leb len (length b.buffer))
  ret (take len b.buffer, record b { buffer = drop len b.buffer })

unfoldable pub take_encoded : List Bytes → ScopedBuffer → Outcome (Bytes × ScopedBuffer)
unfolding take_slice
take_encoded value b = do
  assert (nat_beq b.offset 0)
  s ← encode_to value (scope_from b.buffer)
  take_slice s.len (record b { buffer = s.buffer })

-- What lies before `offset` is kept.
unfoldable pub append_encoded : List Bytes → ScopedBuffer → Outcome ScopedBuffer
append_encoded value b = do
  free ← from_offset b.offset b.buffer
  s ← encode_to value (scope_from free)
  ret (record { offset = b.offset + s.len; buffer = take b.offset b.buffer ++ s.buffer })

unfoldable pub take_appended : ScopedBuffer → Outcome (Bytes × ScopedBuffer)
unfolding take_slice
take_appended b = do
  assert (not (nat_beq b.offset 0))
  take_slice b.offset (record b { offset = 0 })

unfoldable pub take_rest : ScopedBuffer → Outcome Bytes
take_rest b = do
  assert (nat_beq b.offset 0)
  assert (not (nat_beq (length b.buffer) 0))
  ret b.buffer
