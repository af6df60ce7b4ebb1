-- ===== src/Codegen/Dispatch/Payment.antt =====
-- What the generated entry points do with a payment, crates/ink/codegen/src/generator/dispatch.rs.
use ink.Prelude.{
  ◌≡◌, refl, sym, ap, ◌∙◌, ◌⊎◌, inl, inr, true, false, not, ◌&&◌, Bool-cases, Option, some, none,
  List, [], ◌∷◌, Bytes, ret, arith, nat_beq_iff, ◌>>=◌, >>=-eq-ret,
}
use ink.Prelude.Result.{Result, ok, err, Result-cases}
use ink.Engine.Host.{Host}
use ink.Engine.State.{Engine}
use ink.Engine.Ext.{ExtResult, get_storage}
use ink.Engine.Ext.Storage.{after_read, get_storage_state}
use ink.Buffer.{take_encoded, take_rest}
use ink.Env.Backend.{Storable, EnvError, decode_output}
use ink.Env.OnChain.{scoped_buffer, read_input, get_contract_storage, transferred_value}
use ink.Codegen.Dispatch.{
  DispatchError, Dispatchable, Decoded, any_accepts_payment, decode_dispatch,
}
use ink.Codegen.Dispatch.Execute.{
  MessageFn, Returned, unwrap_dispatch, load_contract, deny_payment_if, run_if_paid,
  execute_message, internal_call,
}

-- The result of a decoding.
abbrev pub Decoding : Type 0 → Type 0 → Type 0
Decoding F Args = Result (Decoded F Args) DispatchError

unwrap_dispatch-eq-ret :
    {A : Type 0} (r : Result A DispatchError) (a : A) → unwrap_dispatch r ≡ ret a → r ≡ ok a
unwrap_dispatch-eq-ret (ok b) a h = ground arith
unwrap_dispatch-eq-ret (err x) a h = cc

read_input-same : (input taken : Bytes) → read_input input ≡ ret taken → taken ≡ input
unfolding read_input
read_input-same input taken h = ground arith

module _ ⦃host : Host⦄ where
  -- A payment that is denied unless it is 0.
  deny_payment_if_ok :
      (e : Engine) → deny_payment_if true e ≡ ret (ok tt) → transferred_value e ≡ ret 0
  unfolding deny_payment_if
  deny_payment_if_ok e h =
      let (v, sent, tested) = >>=-eq-ret (transferred_value e) _ h in
      ground (arith, nat_beq_iff v 0)

  -- The value is part of the context.
  pub transferred_value-after_read :
      (c : Bytes) (e : Engine) → transferred_value (after_read c e) ≡ transferred_value e
  unfolding transferred_value
  transferred_value-after_read c e = refl

  module _ {S : Type 0} (codec : Storable S) where
    decode_output-engine :
        (o : ExtResult × Bytes × Engine) (r : Result (Option S) EnvError × Engine)
        → decode_output codec o ≡ ret r
        → r.1 ≡ o.2
    unfolding decode_output
    decode_output-engine (ok tt, output, e) r h = ground arith
    decode_output-engine (err x, output, e) r h = ground arith

    pub get_contract_storage_state :
        (c key : Bytes) (e : Engine) (r : Result (Option S) EnvError × Engine)
        → e.exec_context.callee ≡ some c
        → get_contract_storage codec key e ≡ ret r
        → r.1 ≡ after_read c e
    unfolding get_contract_storage
    get_contract_storage_state c key e r called h =
        let (k, split, rest) = >>=-eq-ret (take_encoded (key ∷ []) scoped_buffer) _ h in
        let (output, left, rest2) = >>=-eq-ret (take_rest k.1) _ rest in
        let (o, ran, decoded) = >>=-eq-ret (get_storage k.0 output e) _ rest2 in
        decode_output-engine o r decoded ∙ get_storage_state c e called k.0 output o.1 o.0 o.2 ran

    load_contract-engine :
        (found : Result (Option S) EnvError × Engine) (l : S × Engine)
        → load_contract found ≡ ret l
        → l.1 ≡ found.1
    load_contract-engine (ok (some s), e) l h = ground arith
    load_contract-engine (ok none, e) l h = cc
    load_contract-engine (err x, e) l h = cc

    module _ {Args : Type 0} (key : Bytes) where
      run_if_paid_ok :
          (f : MessageFn S Args) (l : S × Engine) (args : Args)
          (paid : Result (Unit {0}) DispatchError) (r : Returned)
          → run_if_paid codec key f l args paid ≡ ret (ok r)
          → paid ≡ ok tt
      run_if_paid_ok f (s, e) args (ok tt) r h = refl
      run_if_paid_ok f (s, e) args (err x) r h = cc

      execute_message-pays :
          (d : Decoded (MessageFn S Args) Args) (c : Bytes) (e : Engine) (r : Returned)
          → e.exec_context.callee ≡ some c
          → d.info.payable ≡ false
          → (execute_message codec key true d e >>= unwrap_dispatch) ≡ ret r
          → transferred_value e ≡ ret 0
      unfolding execute_message
      execute_message-pays d c e r called unpayable h =
          let (x, ran, unwrapped) = >>=-eq-ret (execute_message codec key true d e) _ h in
          let is_ok = unwrap_dispatch-eq-ret x r unwrapped in
          let (found, got, rest) = >>=-eq-ret (get_contract_storage codec key e) _ ran in
          let (loaded, has, rest2) = >>=-eq-ret (load_contract found) _ rest in
          let (paid, checked, rest3) =
            >>=-eq-ret (deny_payment_if (true && not d.info.payable) loaded.1) _ rest2 in
          let accepted =
            run_if_paid_ok d.info.function loaded d.args paid r (rest3 ∙ ap ret is_ok) in
          let same : loaded.1 ≡ after_read c e =
            load_contract-engine found loaded has
            ∙ get_contract_storage_state c key e found called got in
          let denied : deny_payment_if true loaded.1 ≡ ret (ok tt) =
            rw unpayable at (checked ∙ ap ret accepted) in
          sym (transferred_value-after_read c e)
          ∙ ap (λ x. transferred_value x) (sym same)
          ∙ deny_payment_if_ok loaded.1 denied

      -- A call that is not reverted was sent no payment, or it was decoded to a message that is
      -- payable.
      pub internal_call-pays :
          (messages : List (Dispatchable (MessageFn S Args) Args)) (input c : Bytes) (e : Engine)
          (r : Returned)
          → e.exec_context.callee ≡ some c
          → internal_call codec key messages input e ≡ ret r
          → r.reverted ≡ false
          → (transferred_value e ≡ ret 0)
            ⊎ ((d : Decoded (MessageFn S Args) Args) × (decode_dispatch messages input ≡ ok d)
                × (d.info.payable ≡ true))
      unfolding internal_call
      internal_call-pays messages input c e r called h kept =
          let any = any_accepts_payment messages in
          let (x, checked, rest) = >>=-eq-ret (deny_payment_if (not any) e) _ h in
          let (t, unwrapped, rest2) = >>=-eq-ret (unwrap_dispatch x) _ rest in
          let passed = unwrap_dispatch-eq-ret x t unwrapped in
          let (taken, read, rest3) = >>=-eq-ret (read_input input) _ rest2 in
          let same_input : taken ≡ input = read_input-same input taken read in
          elim (Bool-cases any) [
            | inl some_payable ↦ elim (Result-cases (decode_dispatch messages input)) [
              | inl (d, decoded) ↦ elim (Bool-cases d.info.payable) [
                | inl payable ↦ inr (d, decoded, payable)
                | inr unpayable ↦ inl (
                    execute_message-pays d c e r called unpayable
                      (rw some_payable at (rw (same_input, decoded) at rest3)))
              ]
              | inr (failed, undecoded) ↦ absurd (ground arith)
            ]
            | inr none_payable ↦
                inl (deny_payment_if_ok e (rw none_payable at (checked ∙ ap ret passed)))
          ]
