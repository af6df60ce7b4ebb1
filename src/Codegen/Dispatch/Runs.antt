-- ===== src/Codegen/Dispatch/Runs.antt =====
-- The whole run of a call and of a deployment, crates/ink/codegen/src/generator/dispatch.rs.
use ink.Prelude.{
  ◌+◌, ◌<◌, ◌∷◌, ◌≡◌, ◌≤◌, refl, ap, ◌∙◌, true, false, not, ◌&&◌, some, List, [], Bytes, ret, arith,
  length, if◌then◌else◌, bytes_eq, beq_refl,
}
use ink.Prelude.Result.{Result, ok, err}
use ink.Engine.Host.{Host, HostLaws}
use ink.Engine.Database
use ink.Engine.State.{Engine}
use ink.Engine.Ext.Storage.{cell, after_set, after_read, IsSmall}
use ink.Engine.Ext.Cells.{cell-after_set}
use ink.Env.Backend.{Storable, StorableLaws}
use ink.Env.OnChain.{
  buffer_size, FitsBuffer, read_input, return_value, get_contract_storage_hit,
  set_contract_storage_runs, transferred_value,
}
use ink.Codegen.Dispatch.{Dispatchable, Decoded, decode_dispatch}
use ink.Codegen.Dispatch.Execute.{
  MessageFn, ConstructorFn, Output, Returned, push_contract, run_message, execute_message,
  internal_call, run_constructor, execute_constructor, internal_deploy, returning,
}
use ink.Codegen.Dispatch.Checks.{Accepts, first_check, second_check}

module _ ⦃host : Host⦄ {S : Type 0} (codec : Storable S) (key c : Bytes) where
  -- The end of a deployment whose constructor has returned `result`, with the engine `e`.
  abbrev pub deployed : Result S Bytes → Engine → Returned
  deployed (ok s) e = record {
    reverted = false;
    output = ok (0 ∷ []);
    engine = after_set c key (codec.encode s) e;
  }
  deployed (err x) e = record { reverted = true; output = ok (1 ∷ x); engine = e }

  -- What a constructor has returned can be stored and returned.
  abbrev pub Storing : Result S Bytes → Engine → Type 0
  Storing (ok s) e = FitsBuffer codec key s × IsSmall (cell c key e)
  Storing (err x) e = length x + 2 ≤ buffer_size

module _ ⦃host : Host⦄ {S Args : Type 0} (codec : Storable S) (key c : Bytes) where
  -- The end of a message that has returned `out`, with the contract `s` and the engine `e`.
  abbrev pub finished : MessageFn S Args → S → Output → Engine → Returned
  finished f s out e = record {
    reverted = f.is_result_type && out.is_err;
    output = ok out.encoding;
    engine =
        if f.mutates && not (f.is_result_type && out.is_err)
        then after_set c key (codec.encode s) e
        else e;
  }

read_input_fits : (input : Bytes) → length input ≤ buffer_size → read_input input ≡ ret input
unfolding read_input
read_input_fits input short = ground arith

-- What is returned has room in the static buffer.
abbrev pub Returnable : Bytes → Type 0
Returnable encoding = length encoding < buffer_size

module _ ⦃host : Host⦄ (laws : HostLaws host) {S Args : Type 0} (codec : Storable S)
    (codec_laws : StorableLaws codec) (key c : Bytes) where
  run_message_lem :
      (f : MessageFn S Args) (s s' : S) (args : Args) (out : Output) (e e' : Engine)
      → f.callable s args e ≡ ret (s', out, e')
      → e'.exec_context.callee ≡ some c
      → IsSmall (cell c key e')
      → FitsBuffer codec key s'
      → Returnable out.encoding
      → run_message codec key f s args e ≡ ret (finished codec key c f s' out e')
  unfolding run_message push_contract returning return_value
  run_message_lem f s s' args out e e' ran called small fits room =
      ground (arith, set_contract_storage_runs codec c key s' e' called fits small)

  -- A call whose input is decoded to a message, with the contract in its cell and a payment of 0 or
  -- for a payable message, runs the message on that contract; its end has what the message returned,
  -- and the new contract is stored if the message mutates it and did not return an error. The input,
  -- what is returned, and the contract before and after, with its key, fit in the static buffer; and
  -- a cell that is overwritten is shorter than 2 ^ 32.
  pub internal_call_lem :
      (messages : List (Dispatchable (MessageFn S Args) Args)) (input : Bytes)
      (d : Decoded (MessageFn S Args) Args) (s s' : S) (out : Output) (e e' : Engine)
      → length input ≤ buffer_size
      → decode_dispatch messages input ≡ ok d
      → e.exec_context.callee ≡ some c
      → cell c key e ≡ some (codec.encode s)
      → FitsBuffer codec key s
      → Accepts d.info e
      → d.info.function.callable s d.args (after_read c e) ≡ ret (s', out, e')
      → e'.exec_context.callee ≡ some c
      → IsSmall (cell c key e')
      → FitsBuffer codec key s'
      → Returnable out.encoding
      → internal_call codec key messages input e
        ≡ ret (finished codec key c d.info.function s' out e')
  unfolding internal_call execute_message transferred_value
  internal_call_lem messages input d s s' out e e' short decoded called has fits accepted ran
        called' small fits' room =
      ground (
        arith,
        first_check messages input d decoded e accepted,
        read_input_fits input short,
        decoded,
        get_contract_storage_hit codec codec_laws c key s e called has fits,
        second_check messages input d decoded (after_read c e) accepted,
        run_message_lem d.info.function s s' d.args out (after_read c e) e' ran called' small fits'
            room,
      )

  run_constructor_lem :
      (f : ConstructorFn S Args) (args : Args) (result : Result S Bytes) (e e' : Engine)
      → f.callable args e ≡ ret (result, e')
      → e'.exec_context.callee ≡ some c
      → Storing codec key c result e'
      → run_constructor codec key f args e ≡ ret (deployed codec key c result e')
  unfolding run_constructor returning return_value
  run_constructor_lem f args (ok s) e e' ran called (fits, small) =
      ground (arith, set_contract_storage_runs codec c key s e' called fits small)
  run_constructor_lem f args (err x) e e' ran called room = ground arith

  -- A deployment whose input is decoded to a constructor, with a payment of 0 or for a payable one,
  -- runs it: a contract that it returns is stored, and an error reverts.
  pub internal_deploy_lem :
      (constructors : List (Dispatchable (ConstructorFn S Args) Args)) (input : Bytes)
      (d : Decoded (ConstructorFn S Args) Args) (result : Result S Bytes) (e e' : Engine)
      → length input ≤ buffer_size
      → decode_dispatch constructors input ≡ ok d
      → Accepts d.info e
      → d.info.function.callable d.args e ≡ ret (result, e')
      → e'.exec_context.callee ≡ some c
      → Storing codec key c result e'
      → internal_deploy codec key constructors input e ≡ ret (deployed codec key c result e')
  unfolding internal_deploy execute_constructor
  internal_deploy_lem constructors input d result e e' short decoded accepted ran called storing =
      ground (
        arith,
        first_check constructors input d decoded e accepted,
        read_input_fits input short,
        decoded,
        second_check constructors input d decoded e accepted,
        run_constructor_lem d.info.function d.args result e e' ran called storing,
      )

  -- A deployment with a payment of 0, or for a payable constructor, whose constructor returns the
  -- contract `s`, ends without a revert; and a later call, on the database that it leaves, with a
  -- payment of 0 or for a payable message, is run on `s`. The inputs, what the message returns, and
  -- the contract as it is stored, with its key, fit in the static buffer; and a cell that is
  -- overwritten is shorter than 2 ^ 32.
  pub internal_deploy-internal_call :
      (constructors : List (Dispatchable (ConstructorFn S Args) Args))
      (messages : List (Dispatchable (MessageFn S Args) Args)) (input input' : Bytes)
      (k : Decoded (ConstructorFn S Args) Args) (d : Decoded (MessageFn S Args) Args) (s s' : S)
      (out : Output) (e e' f f' : Engine)
      → length input ≤ buffer_size
      → decode_dispatch constructors input ≡ ok k
      → Accepts k.info e
      → k.info.function.callable k.args e ≡ ret (ok s, e')
      → e'.exec_context.callee ≡ some c
      → IsSmall (cell c key e')
      → FitsBuffer codec key s
      → f.database ≡ (deployed codec key c (ok s) e').engine.database
      → f.exec_context.callee ≡ some c
      → length input' ≤ buffer_size
      → decode_dispatch messages input' ≡ ok d
      → Accepts d.info f
      → d.info.function.callable s d.args (after_read c f) ≡ ret (s', out, f')
      → f'.exec_context.callee ≡ some c
      → IsSmall (cell c key f')
      → FitsBuffer codec key s'
      → Returnable out.encoding
      → (internal_deploy codec key constructors input e ≡ ret (deployed codec key c (ok s) e'))
        × (internal_call codec key messages input' f
            ≡ ret (finished codec key c d.info.function s' out f'))
  internal_deploy-internal_call constructors messages input input' k d s s' out e e' f f' short
        decoded_k accepted_k made called_e small_e fits same called_f short' decoded_d accepted_d
        ran called_f' small_f fits' room =
      let has : cell c key f ≡ some (codec.encode s) =
        ap (λ db. Database.get_from_contract_storage c key db) same
        ∙ cell-after_set laws c key (codec.encode s) e' c key refl
        ∙ rw (beq_refl c, beq_refl key) refl in
      (
        internal_deploy_lem constructors input k (ok s) e e' short decoded_k accepted_k made
            called_e (fits, small_e),
        internal_call_lem messages input' d s s' out f f' short' decoded_d called_f has fits
            accepted_d ran called_f' small_f fits' room,
      )
