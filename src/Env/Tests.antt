-- ===== src/Env/Tests.antt =====
-- The theorems on the off-chain environment at concrete states, with values that are numbers.
use ink.Prelude.{
  ℕ, ◌≡◌, refl, false, none, some, [], ◌∷◌, Bytes, ret, ◌==◌, bytes_eq, if◌then◌else◌, arith,
}
use ink.Prelude.HashMap
use ink.Prelude.Result.{ok}
use ink.Engine.Demo.{demo_host, demo_laws}
use ink.Engine.Database
use ink.Engine.DebugInfo
use ink.Engine.State
use ink.Engine.State.{Engine}
use ink.Engine.TestApi.{set_callee}
use ink.Engine.Ext.Storage.{cell, after_set, after_read, size_of}
use ink.Env.Backend.{Storable, StorableLaws}
use ink.Env.Lazy
use ink.Env.Lazy.Cell.{lazy_cell, get-set}
use ink.Env.Mapping.{insert, get, contains, remove, entry_key}
use ink.Env.Mapping.Entries.{stored, get-insert, get-remove}
use ink.Env.Topics.{Event, emit_event, topic_of}
use ink.Env.Topics.Emit.{topics_of, emit_event_lem}
use ink.Env.CallData.{Selector, encode_input, new_input, new, decode, selector_of, params}
use ink.Env.CallData.Decode.{push_inputs, push_args, decode-encode_input}

abbrev number : Storable ℕ
number = record { encode = λ n. n ∷ []; decode = λ b. elim b [ [] ↦ none | n ∷ _ ↦ some n ] }

number-StorableLaws : StorableLaws number
number-StorableLaws = record { decode-encode = λ n rest. refl }

abbrev alice : Bytes
alice = 1 ∷ 1 ∷ []

abbrev called : Engine
called = set_callee alice State.new

called-callee : called.exec_context.callee ≡ some alice
unfolding set_callee
called-callee = refl

abbrev key : Bytes
key = 7 ∷ []

no_entry : stored 5 alice key called ≡ none
unfolding set_callee Database.get_from_contract_storage HashMap.get
no_entry = refl

get-insert_example :
    (f : Engine) × (insert 5 number key 9 called ≡ ret (size_of (stored 5 alice key called), f))
    × (get 5 number key f ≡ ret (some 9, after_read alice f))
    × ((j : Bytes)
        → stored 5 alice j f ≡ (if j == key then some (9 ∷ []) else stored 5 alice j called))
get-insert_example =
    get-insert demo_laws 5 number number-StorableLaws alice key 9 called called-callee
      (rw no_entry tt) (omega arith)

-- The entry is there.
abbrev written : Engine
written = after_set alice (entry_key 5 key) (9 ∷ []) called

written_entry : stored 5 alice key written ≡ some (9 ∷ [])
unfolding set_callee entry_key Database.get_from_contract_storage
    Database.insert_into_contract_storage Database.storage_of_contract_key HashMap.insert
    HashMap.get
written_entry = refl

get-remove_example :
    (f : Engine) × (remove 5 key written ≡ ret f)
    × (get 5 number key f ≡ ret (none, after_read alice f))
    × (contains 5 key f ≡ ret (false, after_read alice f))
    × ((j : Bytes) → stored 5 alice j f ≡ (if j == key then none else stored 5 alice j written))
get-remove_example =
    get-remove demo_laws 5 number number-StorableLaws alice key written called-callee

-- A short topic, a long one and none, for a hash of two bytes.
abbrev event : Event 2
event = record { topics = some (4 ∷ []) ∷ some (5 ∷ 6 ∷ 7 ∷ []) ∷ none ∷ []; encoding = 8 ∷ [] }

event_topics : topics_of 2 event.topics ≡ (4 ∷ 0 ∷ []) ∷ (5 ∷ 6 ∷ []) ∷ (0 ∷ 0 ∷ []) ∷ []
unfolding topic_of
event_topics = refl

emit_event_lem_example :
    emit_event 2 event called
    ≡ ret (record called {
      debug_info =
          DebugInfo.record_event
            (record { topics = topics_of 2 event.topics; payload = 8 ∷ [] })
            called.debug_info;
    })
emit_event_lem_example = emit_event_lem demo_laws 1 event called (omega arith)

abbrev call_selector : Selector
call_selector = record { b0 = 1; b1 = 2; b2 = 3; b3 = 4 }

decode-encode_input_example :
    (decode (encode_input (push_inputs ((5 ∷ []) ∷ (6 ∷ 7 ∷ []) ∷ []) (new_input call_selector)))
      ≡ ok (push_args ((5 ∷ []) ∷ (6 ∷ 7 ∷ []) ∷ []) (new call_selector)))
    × (selector_of (push_args ((5 ∷ []) ∷ (6 ∷ 7 ∷ []) ∷ []) (new call_selector))
        ≡ ret call_selector)
    × (params (push_args ((5 ∷ []) ∷ (6 ∷ 7 ∷ []) ∷ []) (new call_selector)) ≡ ret (5 ∷ 6 ∷ 7 ∷ []))
decode-encode_input_example = decode-encode_input call_selector ((5 ∷ []) ∷ (6 ∷ 7 ∷ []) ∷ [])

lazy_unset : lazy_cell 3 alice called ≡ none
unfolding set_callee Database.get_from_contract_storage HashMap.get
lazy_unset = refl

get-set_example :
    (f : Engine) × (Lazy.set 3 number 8 Lazy.new called ≡ ret f)
    × (Lazy.get 3 number Lazy.new f ≡ ret (some 8, after_read alice f))
    × (Lazy.get_or_default 3 number 0 Lazy.new f ≡ ret (8, after_read alice f))
    × ((k : Bytes) → cell alice k f ≡ (if k == 3 ∷ [] then some (8 ∷ []) else cell alice k called))
get-set_example =
    get-set demo_laws 3 number number-StorableLaws alice 0 Lazy.new Lazy.new 8 called called-callee
      (rw lazy_unset tt) (omega arith)
