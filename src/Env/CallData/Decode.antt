-- ===== src/Env/CallData/Decode.antt =====
-- The input of a call, encoded and decoded: crates/env/src/call/execution_input.rs and
-- crates/env/src/engine/off_chain/call_data.rs.
use mathlib.Core.List.{append_assoc, append-nil}
use ink.Prelude.{◌≡◌, refl, sym, ap, ◌∙◌, List, [], ◌∷◌, ◌++◌, Bytes, flatten, ret, arith}
use ink.Prelude.Result.{ok}
use ink.Env.CallData.{
  Selector, to_bytes, encode_arguments, ExecutionInput, new_input, push_input, encode_input,
  CallData, new, push_arg, selector_of, params, decode,
}

-- Arguments pushed one after the other.
abbrev pub push_inputs : List Bytes → ExecutionInput → ExecutionInput
push_inputs [] i = i
push_inputs (a ∷ as') i = push_inputs as' (push_input a i)

abbrev pub push_args : List Bytes → CallData → CallData
push_args [] d = d
push_args (a ∷ as') d = push_args as' (push_arg a d)

encode_input-push_inputs :
    (args : List Bytes) (i : ExecutionInput)
    → encode_input (push_inputs args i) ≡ encode_input i ++ flatten args
unfolding encode_input push_input
encode_input-push_inputs [] i = sym (append-nil _)
encode_input-push_inputs (a ∷ as') i =
    encode_input-push_inputs as' (push_input a i)
    ∙ ap (λ r. to_bytes i.selector ++ r) (append_assoc (encode_arguments i.args) a (flatten as'))

bytes-push_args :
    (args : List Bytes) (d : CallData) → (push_args args d).bytes ≡ d.bytes ++ flatten args
unfolding push_arg
bytes-push_args [] d = sym (append-nil d.bytes)
bytes-push_args (a ∷ as') d =
    bytes-push_args as' (push_arg a d) ∙ append_assoc d.bytes a (flatten as')

-- What is encoded as an execution input is decoded to the call data with the same selector and the
-- same arguments, in the order in which they were pushed.
pub decode-encode_input :
    (s : Selector) (args : List Bytes)
    → (decode (encode_input (push_inputs args (new_input s))) ≡ ok (push_args args (new s)))
      × (selector_of (push_args args (new s)) ≡ ret s)
      × (params (push_args args (new s)) ≡ ret (flatten args))
unfolding decode new selector_of params to_bytes encode_input encode_arguments
decode-encode_input s args =
    let whole : CallData = record { bytes = to_bytes s ++ flatten args } in
    let built : push_args args (new s) ≡ whole =
      ap (λ b. let d : CallData = record { bytes = b } in d) (bytes-push_args args (new s)) in
    let decoded : decode (to_bytes s ++ flatten args) ≡ ok whole = ground arith in
    let read : selector_of whole ≡ ret s = refl in
    let rest : params whole ≡ ret (flatten args) = ground arith in
    (
      ap decode (encode_input-push_inputs args (new_input s)) ∙ decoded ∙ ap ok (sym built),
      ap selector_of built ∙ read,
      ap params built ∙ rest,
    )
