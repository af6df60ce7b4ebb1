-- ===== src/Contracts/Multisig/Tests.antt =====
-- The wallet of integration-tests/multisig/lib.rs with one owner, and its theorems there.
use ink.Prelude.{
  ◌≤◌, ◌≡◌, ◌≢◌, ◌↔◌, refl, true, Option, none, some, List, [], ◌∷◌, Bytes, Outcome, ret, panic,
  arith, ap, bytes_eq, nat_eq,
}
use ink.Prelude.HashMap
use ink.Prelude.HashMap.{HashMap}
use ink.Prelude.Result.{ok}
use ink.Contracts.Totals.{total, count, swapped, swap_remove, position}
use ink.Contracts.Multisig.{
  AccountId, Transaction, Multisig, Env, Event, submit_transaction, add_owner, take_transaction,
  confirmed, ensure_requirement_is_valid, ensure_caller_is_owner, ensure_no_owner,
  ensure_from_wallet, ensure_confirmed, confirm_by_caller, remove_confirmations,
}
use ink.Contracts.Multisig.Invariant.{confirmed_owners, IsValid}
use ink.Contracts.Multisig.Submit.{submit_transaction-IsValid}
use ink.Contracts.Multisig.Invoke.{on_chain, resume, result_of, without_value}
use ink.Contracts.Multisig.Invoke.{invoke_transaction}
use ink.Contracts.Multisig.Execute.{invoke_transaction_runs}
use ink.Contracts.Multisig.New.{new, new-IsValid, insert_owners}
use ink.Contracts.Multisig.Sort.{bytes_leb}
use ink.Contracts.Multisig.Steps.{Step, Reach, Reach-Wallet_IsValid}
use ink.Contracts.Multisig.Reentry.{invoke_transaction-loses_owner}

abbrev alice : AccountId
alice = 1 ∷ []

abbrev bob : AccountId
bob = 2 ∷ []

abbrev wallet : AccountId
wallet = 9 ∷ []

abbrev by_alice : Env
by_alice = record { caller = alice; account_id = wallet; transferred_value = 0 }

abbrev by_wallet : Env
by_wallet = record { caller = wallet; account_id = wallet; transferred_value = 0 }

abbrev add_bob : Transaction
add_bob = record {
  callee = wallet;
  selector = 1 ∷ 2 ∷ 3 ∷ 4 ∷ [];
  input = bob;
  transferred_value = 0;
  gas_limit = 0;
  allow_reentry = true;
}

abbrev one_owner : Multisig
one_owner = record {
  confirmations = [];
  confirmation_count = [];
  transactions = [];
  transaction_ids = [];
  next_id = 0;
  owners = alice ∷ [];
  is_owner = (alice, tt) ∷ [];
  requirement = 1;
}

one_owner_made : new 1 (alice ∷ alice ∷ []) ≡ ret one_owner
unfolding new insert_owners HashMap.insert ensure_requirement_is_valid bytes_leb
one_owner_made = refl

one_owner-IsValid : IsValid one_owner
one_owner-IsValid = new-IsValid 1 (alice ∷ alice ∷ []) one_owner (omega arith) one_owner_made

abbrev submitted : Multisig
submitted = record one_owner {
  confirmations = ((0, alice), tt) ∷ [];
  confirmation_count = (0, 1) ∷ [];
  transactions = (0, add_bob) ∷ [];
  transaction_ids = 0 ∷ [];
  next_id = 1;
}

submitted_run :
    submit_transaction by_alice add_bob one_owner
    ≡ ret
        ((0, confirmed), submitted, Event.submission 0 ∷ Event.confirmation 0 alice confirmed ∷ [])
unfolding submit_transaction ensure_caller_is_owner confirm_by_caller HashMap.get HashMap.insert
submitted_run = refl

submitted-IsValid : IsValid submitted
submitted-IsValid =
    submit_transaction-IsValid by_alice add_bob one_owner submitted (0, confirmed)
      (Event.submission 0 ∷ Event.confirmation 0 alice confirmed ∷ []) one_owner-IsValid
      submitted_run

-- The transaction is taken out.
abbrev taken : Multisig
taken = record submitted {
  confirmations = [];
  confirmation_count = [];
  transactions = [];
  transaction_ids = [];
}

taken_run : take_transaction 0 submitted ≡ ret (some add_bob, taken)
unfolding take_transaction HashMap.get HashMap.remove position swap_remove remove_confirmations
    swapped
taken_run = refl

-- A call that leaves the wallet, and one that adds an owner to it.
abbrev echo : Transaction → Multisig → Option Bytes × Multisig
echo t m = (some t.input, m)

abbrev after : Multisig → Outcome (Unit {0} × Multisig × List Event) → Option Bytes × Multisig
after m (ret (u, k, events)) = (some [], k)
after m panic = (none, m)

abbrev call_wallet : Transaction → Multisig → Option Bytes × Multisig
call_wallet t m = after m (add_owner by_wallet t.input m)

has_confirmed : submitted.requirement ≤ confirmed_owners submitted 0 submitted.owners
unfolding total HashMap.get
has_confirmed = omega arith

invoked_run :
    invoke_transaction echo by_alice 0 submitted
    ≡ ret (ok tt, taken, Event.execution 0 (ok none) ∷ [])
unfolding invoke_transaction ensure_confirmed HashMap.get
invoked_run = rw taken_run refl

Reach-Wallet_IsValid_example : IsValid taken
Reach-Wallet_IsValid_example =
    Reach-Wallet_IsValid echo (λ t m. refl) 1 (alice ∷ alice ∷ []) one_owner taken (omega arith)
      one_owner_made
      (Reach.next
        (Reach.next Reach.here (
          Step.submit by_alice add_bob (0, confirmed)
            (Event.submission 0 ∷ Event.confirmation 0 alice confirmed ∷ []) one_owner submitted
            submitted_run))
        (Step.invoke by_alice 0 (ok tt) (Event.execution 0 (ok none) ∷ []) submitted taken
          invoked_run))

there : HashMap.get 0 submitted.transactions ≡ some add_bob
unfolding HashMap.get
there = refl

invoke_transaction_runs_example :
    (n : Multisig) × (take_transaction 0 submitted ≡ ret (some add_bob, n))
    × ((invoke_transaction echo by_alice 0 submitted
          ≡ ret (ok tt, resume n (on_chain submitted n), Event.execution 0 (ok none) ∷ []))
        × ((without_value (result_of (some bob)) ≡ ok tt) ↔ (some bob ≢ none))
        × (HashMap.get 0 (resume n (on_chain submitted n)).transactions ≡ none)
        × (count 0 n.transaction_ids ≡ 0))
invoke_transaction_runs_example =
    invoke_transaction_runs echo by_alice 0 add_bob submitted (λ y w h. h) submitted-IsValid there
      has_confirmed refl

abbrev with_bob : Multisig
with_bob = record submitted {
  confirmations = [];
  confirmation_count = [];
  transactions = [];
  owners = alice ∷ bob ∷ [];
  is_owner = (alice, tt) ∷ (bob, tt) ∷ [];
}

bob_added :
    add_owner by_wallet bob (on_chain submitted taken)
    ≡ ret (tt, with_bob, Event.owner_addition bob ∷ [])
unfolding add_owner ensure_from_wallet ensure_no_owner ensure_requirement_is_valid HashMap.get
    HashMap.insert
bob_added = refl

invoke_transaction-loses_owner_example :
    (m' : Multisig) × (invoke_transaction call_wallet by_alice 0 submitted
      ≡ ret (ok tt, m', Event.execution 0 (ok none) ∷ []))
    × (HashMap.get bob m'.is_owner ≡ some tt)
    × (count bob m'.owners ≡ 0)
    × (IsValid m' → ⊥)
invoke_transaction-loses_owner_example =
    invoke_transaction-loses_owner call_wallet by_alice by_wallet 0 add_bob bob submitted taken
      with_bob [] (Event.owner_addition bob ∷ []) submitted-IsValid there has_confirmed refl
      taken_run (ap (after (on_chain submitted taken)) bob_added) bob_added
