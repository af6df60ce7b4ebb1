-- ===== src/Contracts/Erc20/Tests.antt =====
-- The token of integration-tests/erc20/lib.rs, with a supply of 100, and its theorems there.
use ink.Prelude.{◌≡◌, refl, List, [], ◌∷◌, arith, if◌then◌else◌, ltb, ret, some, bytes_eq, pair_eq}
use ink.Prelude.HashMap
use ink.Prelude.HashMap.{HashMap}
use ink.Prelude.Result.{Result, ok, err}
use ink.Contracts.Erc20.{
  AccountId, Erc20, Event, Error, insufficient_balance, insufficient_allowance, balance_of,
  allowance, new, transfer, approve, transfer_from,
}
use ink.Contracts.Erc20.Balances.{IsBacked}
use ink.Contracts.Erc20.Transfers.{Refused, Spent, transfer_from_lem}
use ink.Contracts.Erc20.Steps.{Step, Reach, Reach-IsBacked}

abbrev alice : AccountId
alice = 1 ∷ []

abbrev bob : AccountId
bob = 2 ∷ []

abbrev fresh : Erc20
fresh = record { total_supply = 100; balances = (alice, 100) ∷ []; allowances = [] }

abbrev allowed : Erc20
allowed = record fresh { allowances = ((alice, bob), 30) ∷ [] }

abbrev spent : Erc20
spent = record fresh {
  balances = (alice, 80) ∷ (bob, 20) ∷ [];
  allowances = ((alice, bob), 10) ∷ [];
}

made : (new alice 100).0 ≡ fresh
unfolding new HashMap.insert
made = refl

approved :
    approve alice bob 30 (new alice 100).0 ≡ ret (ok tt, allowed, Event.approval alice bob 30 ∷ [])
unfolding approve new HashMap.insert
approved = refl

sent :
    transfer_from bob alice bob 20 allowed
    ≡ ret (ok tt, spent, Event.transferred (some alice) (some bob) 20 ∷ [])
unfolding transfer_from HashMap.insert HashMap.get
sent = refl

refused : transfer bob alice 1 fresh ≡ ret (err insufficient_balance, fresh, [])
unfolding transfer HashMap.get
refused = refl

Reach-IsBacked_example : IsBacked spent
Reach-IsBacked_example = Reach-IsBacked alice 100 spent (omega arith) (
    Reach.next
      (Reach.next Reach.here (
        Step.allow alice bob 30 (ok tt) (Event.approval alice bob 30 ∷ []) (new alice 100).0 allowed
          approved))
      (Step.send_from bob alice bob 20 (ok tt) (Event.transferred (some alice) (some bob) 20 ∷ [])
        allowed spent sent))

allowed-IsBacked : IsBacked allowed
allowed-IsBacked = Reach-IsBacked alice 100 allowed (omega arith) (
    Reach.next Reach.here (
      Step.allow alice bob 30 (ok tt) (Event.approval alice bob 30 ∷ []) (new alice 100).0 allowed
        approved))

transfer_from_lem_example :
    (r : Result (Unit {0}) Error) × (m' : Erc20) × (events : List Event) × (transfer_from bob alice
        alice 20 allowed
      ≡ ret (r, m', events))
    × (if ltb (allowance alice bob allowed) 20
        then Refused insufficient_allowance allowed r m' events
        else (if ltb (balance_of alice allowed) 20
            then Refused insufficient_balance allowed r m' events
            else Spent bob alice alice 20 allowed r m' events))
transfer_from_lem_example = transfer_from_lem bob alice alice 20 allowed allowed-IsBacked
