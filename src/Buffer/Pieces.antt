-- ===== src/Buffer/Pieces.antt =====
-- What the scoped buffer hands out, crates/env/src/engine/on_chain/buffer.rs.
use mathlib.Core.List.{append_assoc, append-nil}
use ink.Prelude.{
  ◌≡◌, sym, ap, ◌≤◌, ◌<◌, leb, List, [], ◌∷◌, ◌++◌, Bytes, length, drop, Outcome, ret, panic, ◌>>=◌,
  if◌then◌else◌, Bool-cases, inl, inr, arith, flatten, length-append, length-drop,
  take-length_append, drop-length_append, drop-add_append, drop-drop,
}
use ink.Buffer.{
  EncodeScope, ScopedBuffer, copy_from_slice, write, encode_to, take_slice, take_encoded,
  append_encoded, take_appended, buffer_from,
}

-- A scope in which `done` was written and `free` is left.
abbrev pub scope : Bytes → Bytes → EncodeScope
scope done free = record { buffer = done ++ free; len = length done }

write_lem :
    (done free piece : Bytes)
    → length piece ≤ length free
    → write piece (scope done free) ≡ ret (scope (done ++ piece) (drop (length piece) free))
unfolding write copy_from_slice
write_lem done free piece fits = ground (
  arith,
  take-length_append done free,
  drop-add_append done free (length piece),
  append_assoc done piece (drop (length piece) free),
  length-append done piece,
  length-append done free,
)

write_overflow :
    (done free piece : Bytes) → length free < length piece → write piece (scope done free) ≡ panic
unfolding write
write_overflow done free piece over = ground (arith, length-append done free)

encode_to_lem :
    (pieces : List Bytes) (done free : Bytes)
    → length (flatten pieces) ≤ length free
    → encode_to pieces (scope done free)
      ≡ ret (scope (done ++ flatten pieces) (drop (length (flatten pieces)) free))
unfolding encode_to
encode_to_lem [] done free fits = ap (λ d. ret (scope d free)) (sym (append-nil done))
encode_to_lem (p ∷ pieces) done free fits = ground (
  arith,
  write_lem done free p,
  encode_to_lem pieces (done ++ p) (drop (length p) free),
  length-append p (flatten pieces),
  length-drop (length p) free,
  drop-drop (length p) (length (flatten pieces)) free,
  append_assoc done p (flatten pieces),
)

encode_to_overflow :
    (pieces : List Bytes) (done free : Bytes)
    → length free < length (flatten pieces)
    → encode_to pieces (scope done free) ≡ panic
unfolding encode_to
encode_to_overflow [] done free over = absurd (omega arith)
encode_to_overflow (p ∷ pieces) done free over = elim (Bool-cases (leb (length p) (length free))) [
  | inl e ↦ ground (
    arith,
    write_lem done free p,
    encode_to_overflow pieces (done ++ p) (drop (length p) free),
    length-append p (flatten pieces),
    length-drop (length p) free,
  )
  | inr e ↦ ground (arith, write_overflow done free p)
]

take_encoded_fits :
    (value : List Bytes) (buffer : Bytes)
    → length (flatten value) ≤ length buffer
    → take_encoded value (buffer_from buffer)
      ≡ ret (flatten value, buffer_from (drop (length (flatten value)) buffer))
unfolding take_encoded take_slice
take_encoded_fits value buffer fits = ground (
  arith,
  encode_to_lem value [] buffer,
  take-length_append (flatten value) (drop (length (flatten value)) buffer),
  drop-length_append (flatten value) (drop (length (flatten value)) buffer),
  length-append (flatten value) (drop (length (flatten value)) buffer),
)

-- A value that is one piece.
pub take_encoded_one :
    (value buffer : Bytes)
    → length value ≤ length buffer
    → take_encoded (value ∷ []) (buffer_from buffer)
      ≡ ret (value, buffer_from (drop (length value) buffer))
take_encoded_one value buffer fits =
    let all : flatten (value ∷ []) ≡ value = append-nil value in
    ground (arith, all, take_encoded_fits (value ∷ []) buffer)

-- `take_encoded` hands out the encoding of the value and leaves the rest of the buffer, or panics
-- if the encoding does not fit. Nothing has been appended before.
take_encoded_lem :
    (value : List Bytes) (buffer : Bytes)
    → take_encoded value (buffer_from buffer) ≡ (
        if leb (length (flatten value)) (length buffer)
        then ret (flatten value, buffer_from (drop (length (flatten value)) buffer))
        else panic)
unfolding take_encoded
take_encoded_lem value buffer =
    ground (arith, take_encoded_fits value buffer, encode_to_overflow value [] buffer)

-- The buffer to which the bytes `done` have been appended, with `free` left.
abbrev pub appended : Bytes → Bytes → ScopedBuffer
appended done free = record { offset = length done; buffer = done ++ free }

append_encoded_lem :
    (value : List Bytes) (done free : Bytes)
    → length (flatten value) ≤ length free
    → append_encoded value (appended done free)
      ≡ ret (appended (done ++ flatten value) (drop (length (flatten value)) free))
unfolding append_encoded
append_encoded_lem value done free fits = ground (
  arith,
  encode_to_lem value [] free,
  take-length_append done free,
  drop-length_append done free,
  length-append done free,
  length-append done (flatten value),
  append_assoc done (flatten value) (drop (length (flatten value)) free),
)

-- Values appended one after the other.
unfoldable pub append_all : List (List Bytes) → ScopedBuffer → Outcome ScopedBuffer
append_all [] b = ret b
append_all (v ∷ vs) b = do b' ← append_encoded v b; append_all vs b'

abbrev pub encoding : List (List Bytes) → Bytes
encoding [] = []
encoding (v ∷ vs) = flatten v ++ encoding vs

append_all_lem :
    (values : List (List Bytes)) (done free : Bytes)
    → length (encoding values) ≤ length free
    → append_all values (appended done free)
      ≡ ret (appended (done ++ encoding values) (drop (length (encoding values)) free))
unfolding append_all
append_all_lem [] done free fits = ap (λ d. ret (appended d free)) (sym (append-nil done))
append_all_lem (v ∷ vs) done free fits = ground (
  arith,
  append_encoded_lem v done free,
  append_all_lem vs (done ++ flatten v) (drop (length (flatten v)) free),
  length-append (flatten v) (encoding vs),
  length-drop (length (flatten v)) free,
  drop-drop (length (flatten v)) (length (encoding vs)) free,
  append_assoc done (flatten v) (encoding vs),
)

-- Values that are appended to a fresh buffer, and fit in it, come out of `take_appended` one after
-- the other, and the rest of the buffer is left. Their encoding is not empty.
pub take_appended-append_all :
    (values : List (List Bytes)) (buffer : Bytes)
    → 0 < length (encoding values)
    → length (encoding values) ≤ length buffer
    → (append_all values (buffer_from buffer) >>= take_appended)
      ≡ ret (encoding values, buffer_from (drop (length (encoding values)) buffer))
unfolding take_appended take_slice
take_appended-append_all values buffer full fits = ground (
  arith,
  append_all_lem values [] buffer,
  take-length_append (encoding values) (drop (length (encoding values)) buffer),
  drop-length_append (encoding values) (drop (length (encoding values)) buffer),
  length-append (encoding values) (drop (length (encoding values)) buffer),
)
