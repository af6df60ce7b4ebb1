-- ===== src/Env/CallData.antt =====
-- The input of a call: crates/env/src/call/selector.rs and execution_input.rs build it, and
-- crates/env/src/engine/off_chain/call_data.rs reads it. An argument is its encoding.
pub mod Decode
use ink.Prelude.{
  ℕ, ltb, leb, List, [], ◌∷◌, ◌++◌, Bytes, length, drop, Outcome, ret, panic, assert, ◌>>=◌, ◌>>◌,
  if◌then◌else◌,
}
use ink.Prelude.Result.{Result, ok, err}

-- Four bytes.
pub record Selector : Type 0 where
  pub b0 : ℕ
  pub b1 : ℕ
  pub b2 : ℕ
  pub b3 : ℕ

unfoldable pub to_bytes : Selector → Bytes
to_bytes s = s.b0 ∷ s.b1 ∷ s.b2 ∷ s.b3 ∷ []

-- `ArgumentList`, whose head is the last argument pushed.
pub data ArgumentList : Type 0 where
  list_end : ArgumentList
  argument : Bytes → ArgumentList → ArgumentList

unfoldable pub encode_arguments : ArgumentList → Bytes
encode_arguments list_end = []
encode_arguments (argument head rest) = encode_arguments rest ++ head

pub record ExecutionInput : Type 0 where
  pub selector : Selector
  pub args : ArgumentList

abbrev pub new_input : Selector → ExecutionInput
new_input selector = record { selector = selector; args = list_end }

unfoldable pub push_input : Bytes → ExecutionInput → ExecutionInput
push_input arg i = record i { args = argument arg i.args }

unfoldable pub update_selector : Selector → ExecutionInput → ExecutionInput
update_selector selector i = record i { selector = selector }

unfoldable pub encode_input : ExecutionInput → Bytes
unfolding to_bytes encode_arguments
encode_input i = to_bytes i.selector ++ encode_arguments i.args

-- `CallData`
pub record CallData : Type 0 where
  pub bytes : Bytes

unfoldable pub new : Selector → CallData
new selector = record { bytes = to_bytes selector }

unfoldable pub push_arg : Bytes → CallData → CallData
push_arg arg d = record { bytes = d.bytes ++ arg }

-- The first four bytes, which the indexing panics without.
unfoldable pub selector_of : CallData → Outcome Selector
selector_of d = first d.bytes
  where
    first : Bytes → Outcome Selector
    first (a ∷ b ∷ c ∷ d ∷ _) = ret (record { b0 = a; b1 = b; b2 = c; b3 = d })
    first _ = panic

unfoldable pub params : CallData → Outcome Bytes
params d = do assert (leb 4 (length d.bytes)); ret (drop 4 d.bytes)

pub data Error : Type 0 where
  too_short : Error

-- Reads all the bytes that are left.
unfoldable pub decode : Bytes → Result CallData Error
decode input = if ltb (length input) 4 then err too_short else ok (record { bytes = input })
