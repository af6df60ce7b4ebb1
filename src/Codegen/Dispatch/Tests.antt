-- ===== src/Codegen/Dispatch/Tests.antt =====
-- The theorems on dispatch at a contract that holds a number: `add` changes it, and `pay`, a trait's
-- message, is payable and a wildcard.
use ink.Prelude.{
  ℕ, ◌+◌, ◌≡◌, ◌≤◌, length, ◌⊎◌, inr, refl, true, false, Option, none, some, List, [], ◌∷◌, ◌++◌,
  Bytes, ret, arith, get_elem?,
}
use ink.Prelude.HashMap
use ink.Prelude.Distinct.{NotIn}
use ink.Prelude.Result.{Result, ok, err}
use ink.Engine.Demo.{demo_host, demo_laws}
use ink.Engine.Properties.{value_transferred}
use ink.Engine.Ext.{set_output}
use ink.Engine.Database
use ink.Engine.State
use ink.Engine.State.{Engine}
use ink.Engine.TestApi.{set_callee}
use ink.Engine.Ext.Storage.{cell, after_set, after_read}
use ink.Env.Backend.{Storable, StorableLaws}
use ink.Env.OnChain.{transferred_value}
use ink.Ir.Selector.{Selector, to_bytes}
use ink.Ir.Attrs.{wildcard}
use ink.Ir.Callable.{
  Callable, ItemImpl, ImplItem, TraitPath, iter_messages, iter_constructors, has_wildcard_selector,
}
use ink.Ir.ItemMod.{
  Item, InkItem, impl_blocks, enter_all, enter_blocks, ensure_no_overlapping_selectors,
}
use ink.Codegen.Dispatch.{
  unknown_selector, Dispatchable, Decoded, decode_arm, decode_dispatch, TraitMessageInfo,
  compose_messages_with_ids, compose_constructors_with_ids,
}
use ink.Codegen.Dispatch.Reach.{constants, NoWildcard, decode_dispatch_cases}
use ink.Codegen.Dispatch.Accepted.{Agrees, message_reached}
use ink.Codegen.Dispatch.Execute.{MessageFn, ConstructorFn, Output, internal_call, internal_deploy}
use ink.Codegen.Dispatch.Payment.{internal_call-pays}
use ink.Codegen.Dispatch.Runs.{finished, deployed, internal_call_lem, internal_deploy-internal_call}

abbrev number : Storable ℕ
number = record { encode = λ n. n ∷ []; decode = λ b. elim b [ [] ↦ none | n ∷ _ ↦ some n ] }

number-StorableLaws : StorableLaws number
number-StorableLaws = record { decode-encode = λ n rest. refl }

abbrev lettered : ℕ → Selector
lettered b = record { b0 = b; b1 = 0; b2 = 0; b3 = 0 }

-- A selector that is read off the first letter of the name.
abbrev letter_of : Bytes → Selector
letter_of [] = lettered 0
letter_of (b ∷ _) = lettered b

abbrev letter_selector : ItemImpl → Callable → Selector
letter_selector i c = letter_of c.ident

abbrev registry : TraitPath → Bytes → TraitMessageInfo
registry path ident = record { selector = letter_of ident; payable = true }

abbrev new_fn : Callable
new_fn = record { ident = b'n' ∷ []; selector = none; is_payable = false; is_default = false }

abbrev add_fn : Callable
add_fn = record { ident = b'a' ∷ []; selector = none; is_payable = false; is_default = false }

abbrev pay_fn : Callable
pay_fn = record {
  ident = b'p' ∷ [];
  selector = some wildcard;
  is_payable = false;
  is_default = false;
}

abbrev payable_trait : TraitPath
payable_trait = record {
  leading_colon = false;
  token_text = b'P' ∷ [];
  segments = (b'P' ∷ []) ∷ [];
}

abbrev contract : List Item
contract =
    Item.ink_item InkItem.storage
    ∷ Item.ink_item (
        InkItem.impl_block (record {
          namespace = none;
          trait_path = none;
          items = ImplItem.constructor new_fn ∷ ImplItem.message add_fn ∷ [];
        }))
    ∷ Item.ink_item (
        InkItem.impl_block (record {
          namespace = none;
          trait_path = some payable_trait;
          items = ImplItem.message pay_fn ∷ [];
        }))
    ∷ []

abbrev number_input : ItemImpl → Callable → Bytes → Option ℕ
number_input i c b = elim b [ [] ↦ none | n ∷ _ ↦ some n ]

abbrev add_to : ItemImpl → Callable → MessageFn ℕ ℕ
add_to i c = record {
  mutates = true;
  is_result_type = false;
  callable = λ s n e. ret (s + n, record { encoding = s ∷ []; is_err = false }, e);
}

abbrev start_at : ItemImpl → Callable → ConstructorFn ℕ ℕ
start_at i c = record { callable = λ n e. ret (ok n, e) }

abbrev messages : List (Dispatchable (MessageFn ℕ ℕ) ℕ)
messages = compose_messages_with_ids letter_selector registry number_input add_to contract

abbrev constructors : List (Dispatchable (ConstructorFn ℕ ℕ) ℕ)
constructors = compose_constructors_with_ids letter_selector registry number_input start_at contract

abbrev add_info : Dispatchable (MessageFn ℕ ℕ) ℕ
add_info = record {
  selector = lettered b'a';
  wildcard = false;
  payable = false;
  decode_input = λ b. elim b [ [] ↦ none | n ∷ _ ↦ some n ];
  function = add_to (record { namespace = none; trait_path = none; items = [] }) add_fn;
}

add_listed : get_elem? messages 0 ≡ some add_info
unfolding compose_messages_with_ids iter_messages has_wildcard_selector
add_listed = refl

no_overlap : ensure_no_overlapping_selectors letter_selector contract ≡ ok tt
unfolding ensure_no_overlapping_selectors enter_blocks enter_all iter_messages iter_constructors
    HashMap.get HashMap.insert to_bytes
no_overlap = refl

agreement : Agrees letter_selector registry number_input add_to (impl_blocks contract)
unfolding iter_messages to_bytes
agreement = ((refl, tt), ((refl, tt), tt))

message_reached_example :
    decode_dispatch messages (to_bytes (lettered b'a') ++ 5 ∷ [])
    ≡ ok (record { index = 0; info = add_info; args = 5 })
message_reached_example =
    message_reached letter_selector registry number_input add_to contract 0 add_info (5 ∷ []) 5
      no_overlap agreement add_listed refl

-- A selector that no message has is decoded by the wildcard.
decode_dispatch_cases_example :
    ((i : ℕ) × (d : Dispatchable (MessageFn ℕ ℕ) ℕ) × (get_elem? messages i ≡ some d)
      × (to_bytes d.selector ≡ to_bytes (lettered b'z'))
      × (decode_dispatch messages (to_bytes (lettered b'z') ++ 4 ∷ []) ≡ decode_arm i d (4 ∷ [])))
    ⊎ ((NotIn (to_bytes (lettered b'z')) (constants messages)
          × ((i : ℕ) × (d : Dispatchable (MessageFn ℕ ℕ) ℕ) × (get_elem? messages i ≡ some d)
              × (d.wildcard ≡ true)
              × (decode_dispatch messages (to_bytes (lettered b'z') ++ 4 ∷ [])
                  ≡ decode_arm i d (4 ∷ []))))
        ⊎ (NotIn (to_bytes (lettered b'z')) (constants messages)
            × NoWildcard messages
            × (decode_dispatch messages (to_bytes (lettered b'z') ++ 4 ∷ [])
                ≡ err unknown_selector)))
decode_dispatch_cases_example = decode_dispatch_cases messages (lettered b'z') (4 ∷ [])

abbrev alice : Bytes
alice = 1 ∷ 1 ∷ []

abbrev root_key : Bytes
root_key = 0 ∷ []

abbrev called : Engine
called = set_callee alice State.new

-- The contract holds 7.
abbrev holds_seven : Engine
holds_seven = after_set alice root_key (7 ∷ []) called

seven_stored : cell alice root_key holds_seven ≡ some (7 ∷ [])
unfolding set_callee Database.get_from_contract_storage Database.insert_into_contract_storage
    Database.storage_of_contract_key HashMap.insert HashMap.get
seven_stored = refl

abbrev add_five : Decoded (MessageFn ℕ ℕ) ℕ
add_five = record { index = 0; info = add_info; args = 5 }

holds_seven-callee : holds_seven.exec_context.callee ≡ some alice
unfolding set_callee
holds_seven-callee = refl

nothing_sent : transferred_value holds_seven ≡ ret 0
unfolding transferred_value value_transferred set_output set_callee
nothing_sent = refl

add_input_fits : length (to_bytes (lettered b'a') ++ 5 ∷ []) ≤ 16384
unfolding to_bytes
add_input_fits = omega arith

new_input_fits : length (to_bytes (lettered b'n') ++ 3 ∷ []) ≤ 16384
unfolding to_bytes
new_input_fits = omega arith

abbrev adds : Output
adds = record { encoding = 7 ∷ []; is_err = false }

internal_call_lem_example :
    internal_call number root_key messages (to_bytes (lettered b'a') ++ 5 ∷ []) holds_seven
    ≡ ret (finished number root_key alice add_info.function 12 adds (after_read alice holds_seven))
internal_call_lem_example =
    internal_call_lem demo_laws number number-StorableLaws root_key alice messages
      (to_bytes (lettered b'a') ++ 5 ∷ []) add_five 7 12 adds holds_seven
      (after_read alice holds_seven) add_input_fits message_reached_example holds_seven-callee
      seven_stored (omega arith) (inr nothing_sent) refl holds_seven-callee
      (rw seven_stored (omega arith)) (omega arith) (omega arith)

internal_call-pays_example :
    (transferred_value holds_seven ≡ ret 0)
    ⊎ ((d : Decoded (MessageFn ℕ ℕ) ℕ) × (decode_dispatch messages
            (to_bytes (lettered b'a') ++ 5 ∷ [])
          ≡ ok d)
        × (d.info.payable ≡ true))
internal_call-pays_example =
    internal_call-pays number root_key messages (to_bytes (lettered b'a') ++ 5 ∷ []) alice
      holds_seven
      (finished number root_key alice add_info.function 12 adds (after_read alice holds_seven))
      holds_seven-callee internal_call_lem_example refl

abbrev new_info : Dispatchable (ConstructorFn ℕ ℕ) ℕ
new_info = record {
  selector = lettered b'n';
  wildcard = false;
  payable = false;
  decode_input = λ b. elim b [ [] ↦ none | n ∷ _ ↦ some n ];
  function = record { callable = λ n e. ret (ok n, e) };
}

new_decoded :
    decode_dispatch constructors (to_bytes (lettered b'n') ++ 3 ∷ [])
    ≡ ok (record { index = 0; info = new_info; args = 3 })
unfolding decode_dispatch compose_constructors_with_ids iter_constructors has_wildcard_selector
    to_bytes
new_decoded = refl

called-callee : called.exec_context.callee ≡ some alice
unfolding set_callee
called-callee = refl

nothing_stored : cell alice root_key called ≡ none
unfolding set_callee Database.get_from_contract_storage HashMap.get
nothing_stored = refl

nothing_paid : transferred_value called ≡ ret 0
unfolding transferred_value value_transferred set_output set_callee
nothing_paid = refl

abbrev three : Result ℕ Bytes
three = ok 3

-- The engine after the deployment, in which the next call starts.
abbrev holds_three : Engine
holds_three = (deployed number root_key alice three called).engine

holds_three-callee : holds_three.exec_context.callee ≡ some alice
unfolding set_callee
holds_three-callee = refl

three_stored : cell alice root_key holds_three ≡ some (3 ∷ [])
unfolding set_callee Database.get_from_contract_storage Database.insert_into_contract_storage
    Database.storage_of_contract_key HashMap.insert HashMap.get
three_stored = refl

still_nothing_paid : transferred_value holds_three ≡ ret 0
unfolding transferred_value value_transferred set_output set_callee
still_nothing_paid = refl

abbrev adds_to_three : Output
adds_to_three = record { encoding = 3 ∷ []; is_err = false }

internal_deploy-internal_call_example :
    (internal_deploy number root_key constructors (to_bytes (lettered b'n') ++ 3 ∷ []) called
      ≡ ret (deployed number root_key alice three called))
    × (internal_call number root_key messages (to_bytes (lettered b'a') ++ 5 ∷ []) holds_three
        ≡ ret (
            finished number root_key alice add_info.function 8 adds_to_three
              (after_read alice holds_three)))
internal_deploy-internal_call_example =
    internal_deploy-internal_call demo_laws number number-StorableLaws root_key alice constructors
      messages (to_bytes (lettered b'n') ++ 3 ∷ []) (to_bytes (lettered b'a') ++ 5 ∷ [])
      (record { index = 0; info = new_info; args = 3 }) add_five 3 8 adds_to_three called called
      holds_three (after_read alice holds_three) new_input_fits new_decoded (inr nothing_paid) refl
      called-callee (rw nothing_stored tt) (omega arith) refl holds_three-callee add_input_fits
      message_reached_example (inr still_nothing_paid) refl holds_three-callee
      (rw three_stored (omega arith)) (omega arith) (omega arith)
