-- ===== src/Buffer/Tests.antt =====
-- The theorems on the static buffer at concrete buffers.
use ink.Prelude.{◌≡◌, refl, [], ◌∷◌, Bytes, ret, ◌>>=◌, arith}
use ink.Buffer.{buffer_from, take_appended, push_byte, copy_from_slice, scope_from}
use ink.Buffer.Pieces.{append_all, take_appended-append_all, scope}

abbrev five_bytes : Bytes
five_bytes = 0 ∷ 0 ∷ 0 ∷ 0 ∷ 9 ∷ []

-- A byte that is pushed is a write of one byte.
pushed : push_byte 7 (scope_from five_bytes) ≡ ret (scope (7 ∷ []) (0 ∷ 0 ∷ 0 ∷ 9 ∷ []))
unfolding push_byte copy_from_slice
pushed = refl

take_appended-append_all_example :
    (append_all (((1 ∷ 2 ∷ []) ∷ []) ∷ ((3 ∷ []) ∷ (4 ∷ []) ∷ []) ∷ []) (buffer_from five_bytes)
      >>= take_appended)
    ≡ ret (1 ∷ 2 ∷ 3 ∷ 4 ∷ [], buffer_from (9 ∷ []))
take_appended-append_all_example =
    take_appended-append_all (((1 ∷ 2 ∷ []) ∷ []) ∷ ((3 ∷ []) ∷ (4 ∷ []) ∷ []) ∷ []) five_bytes
      (omega arith) (omega arith)
