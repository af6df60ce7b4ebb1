-- ===== src/Codegen/Dispatch/Execute.antt =====
-- How a decoded message or constructor is executed, and the entry points `call` and `deploy`,
-- crates/ink/codegen/src/generator/dispatch.rs, in the environment on the chain.
-- `return_value` ends the execution; a panic ends it with no result.
use ink.Prelude.{
  Bool, true, false, not, ◌&&◌, Option, none, some, List, [], ◌∷◌, Bytes, nat_beq, Outcome, ret,
  panic, ◌>>=◌, ◌>>◌, if◌then◌else◌,
}
use ink.Prelude.Result.{Result, ok, err}
use ink.Engine.Host.{Host}
use ink.Engine.State.{Engine}
use ink.Env.Backend.{Storable, EnvError}
use ink.Env.OnChain.{
  LangError, could_not_read_input, read_input, return_value, get_contract_storage,
  set_contract_storage, transferred_value,
}
use ink.Codegen.Dispatch.{
  DispatchError, paid_unpayable_message, Dispatchable, Decoded, any_accepts_payment,
  decode_dispatch,
}

-- A value that a function returns: its encoding, and whether it is a `Result::Err`.
pub record Output : Type 0 where
  pub encoding : Bytes
  pub is_err : Bool

-- `CALLABLE` and `MUTATES` of a message, with `is_result_type!` of its output. A message works on
-- the contract and on the environment.
pub record MessageFn (S Args : Type 0) : Type 0 where
  pub mutates : Bool
  pub is_result_type : Bool
  pub callable : S → Args → Engine → Outcome (S × Output × Engine)

-- `CALLABLE` of a constructor. What it returns is read by `ConstructorOutput::as_result`: a
-- contract, or an encoded error.
pub record ConstructorFn (S Args : Type 0) : Type 0 where
  pub callable : Args → Engine → Outcome (Result S Bytes × Engine)

-- The end of an execution, by `return_value`: a value that is returned is encoded.
pub record Returned : Type 0 where
  pub reverted : Bool
  pub output : Result Bytes LangError
  pub engine : Engine

-- `return_value` with its flags.
unfoldable pub returning : Returned → Outcome Returned
unfolding return_value
returning r = return_value r.output r

-- What is returned where the input cannot be decoded.
abbrev pub unread : Engine → Returned
unread e = record { reverted = true; output = err could_not_read_input; engine = e }

abbrev pub unwrap_dispatch : {A : Type 0} → Result A DispatchError → Outcome A
unwrap_dispatch (ok a) = ret a
unwrap_dispatch (err _) = panic

-- The `match` on the stored contract.
abbrev pub load_contract : {S : Type 0} → Result (Option S) EnvError × Engine → Outcome (S × Engine)
load_contract (ok (some s), e) = ret (s, e)
load_contract (ok none, e) = panic
load_contract (err _, e) = panic

module _ ⦃host : Host⦄ where
  unfoldable pub deny_payment : Engine → Outcome (Result (Unit {0}) DispatchError)
  deny_payment e =
      transferred_value e >>= λ v. ret (if nat_beq v 0 then ok tt else err paid_unpayable_message)

  -- `if … { deny_payment()?; }`
  unfoldable pub deny_payment_if : Bool → Engine → Outcome (Result (Unit {0}) DispatchError)
  unfolding deny_payment
  deny_payment_if true e = deny_payment e
  deny_payment_if false e = ret (ok tt)

  module _ {S : Type 0} (contract_codec : Storable S) (key : Bytes) where
    unfoldable pub push_contract : S → Bool → Engine → Outcome Engine
    push_contract contract true e =
        set_contract_storage contract_codec key contract e >>= λ r. ret r.1
    push_contract contract false e = ret e

    -- No need to push back the contract where the transaction is reverted.
    abbrev pub push_unless : Bool → S → Bool → Engine → Outcome Engine
    push_unless true contract mutates e = ret e
    push_unless false contract mutates e = push_contract contract mutates e

    -- The value that is returned is a `Result<(), E>`.
    abbrev pub store_result : Result S Bytes → Engine → Outcome Returned
    store_result (ok contract) e = set_contract_storage contract_codec key contract e >>= λ r.
        returning (record { reverted = false; output = ok (0 ∷ []); engine = r.1 })
    store_result (err error) e =
        returning (record { reverted = true; output = ok (1 ∷ error); engine = e })

  module _ {S Args : Type 0} (contract_codec : Storable S) (key : Bytes) where
    -- An arm of the `match` of `execute_dispatchable`, behind the payment's check.
    unfoldable pub run_message : MessageFn S Args → S → Args → Engine → Outcome Returned
    unfolding push_contract returning
    run_message f contract args e = do
      r ← f.callable contract args e
      let is_reverted = f.is_result_type && r.1.is_err
      e' ← push_unless contract_codec key is_reverted r.0 f.mutates r.2
      returning (record { reverted = is_reverted; output = ok r.1.encoding; engine = e' })

    abbrev pub run_if_paid :
        MessageFn S Args
        → S × Engine
        → Args
        → Result (Unit {0}) DispatchError
        → Outcome (Result Returned DispatchError)
    run_if_paid f (contract, e) args (err x) = ret (err x)
    run_if_paid f (contract, e) args (ok _) = run_message f contract args e >>= λ r. ret (ok r)

    -- `execute_dispatchable` of `__ink_MessageDecoder`
    unfoldable pub execute_message :
        Bool → Decoded (MessageFn S Args) Args → Engine → Outcome (Result Returned DispatchError)
    unfolding deny_payment_if run_message
    execute_message any_payable d e = do
      found ← get_contract_storage contract_codec key e
      loaded ← load_contract found
      paid ← deny_payment_if (any_payable && not d.info.payable) loaded.1
      run_if_paid d.info.function loaded d.args paid

    -- `internal_call`
    unfoldable pub internal_call :
        List (Dispatchable (MessageFn S Args) Args) → Bytes → Engine → Outcome Returned
    unfolding execute_message decode_dispatch any_accepts_payment read_input returning
    internal_call messages input e = do
      denied ← deny_payment_if (not (any_accepts_payment messages)) e
      unwrap_dispatch denied
      taken ← read_input input
      elim (decode_dispatch messages taken) [
        | err _ ↦ returning (unread e)
        | ok d ↦ execute_message (any_accepts_payment messages) d e >>= unwrap_dispatch
      ]

    unfoldable pub run_constructor : ConstructorFn S Args → Args → Engine → Outcome Returned
    run_constructor f args e = f.callable args e >>= λ r. store_result contract_codec key r.0 r.1

    abbrev pub construct_if_paid :
        ConstructorFn S Args
        → Args
        → Engine
        → Result (Unit {0}) DispatchError
        → Outcome (Result Returned DispatchError)
    construct_if_paid f args e (err x) = ret (err x)
    construct_if_paid f args e (ok _) = run_constructor f args e >>= λ r. ret (ok r)

    -- `execute_dispatchable` of `__ink_ConstructorDecoder`
    unfoldable pub execute_constructor :
        Bool
        → Decoded (ConstructorFn S Args) Args
        → Engine
        → Outcome (Result Returned DispatchError)
    unfolding deny_payment_if run_constructor
    execute_constructor any_payable d e = do
      paid ← deny_payment_if (any_payable && not d.info.payable) e
      construct_if_paid d.info.function d.args e paid

    -- `internal_deploy`
    unfoldable pub internal_deploy :
        List (Dispatchable (ConstructorFn S Args) Args) → Bytes → Engine → Outcome Returned
    unfolding execute_constructor decode_dispatch any_accepts_payment read_input returning
    internal_deploy constructors input e = do
      denied ← deny_payment_if (not (any_accepts_payment constructors)) e
      unwrap_dispatch denied
      taken ← read_input input
      elim (decode_dispatch constructors taken) [
        | err _ ↦ returning (unread e)
        | ok d ↦ execute_constructor (any_accepts_payment constructors) d e >>= unwrap_dispatch
      ]
