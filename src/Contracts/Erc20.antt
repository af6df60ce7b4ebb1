-- ===== src/Contracts/Erc20.antt =====
-- The token of integration-tests/erc20/lib.rs. A message takes the token and returns its result, the
-- token and the events that it emits, or panics, which rolls it back.
pub mod Balances
pub mod Transfers
pub mod Steps
mod Tests
use ink.Prelude.{
  ℕ, ◌+◌, ◌-◌, Option, none, some, List, [], ◌∷◌, Bytes, bytes_eq, pair_eq, Outcome, ret, assert,
  ◌>>=◌, ◌>>◌, ltb, if◌then◌else◌,
}
use ink.Engine.Host.{u128_mod}
use ink.Prelude.HashMap
use ink.Prelude.HashMap.{HashMap}
use ink.Prelude.Result.{Result, ok, err}

abbrev pub AccountId : Type 0
AccountId = Bytes

pub record Erc20 : Type 0 where
  pub total_supply : ℕ
  pub balances : HashMap AccountId ℕ
  pub allowances : HashMap (AccountId × AccountId) ℕ

-- The events that the contract emits.
pub data Event : Type 0 where
  transferred : Option AccountId → Option AccountId → ℕ → Event
  approval : AccountId → AccountId → ℕ → Event

pub data Error : Type 0 where
  insufficient_balance insufficient_allowance : Error

abbrev pub Message : Type 0
Message = Outcome (Result (Unit {0}) Error × Erc20 × List Event)

abbrev pub unwrap_or_default : Option ℕ → ℕ
unwrap_or_default none = 0
unwrap_or_default (some n) = n

-- `a + b` on `u128`, with overflow checks.
abbrev pub add_u128 : ℕ → ℕ → Outcome ℕ
add_u128 a b = do assert (ltb (a + b) u128_mod); ret (a + b)

abbrev pub balance_of : AccountId → Erc20 → ℕ
balance_of owner self = unwrap_or_default (HashMap.get owner self.balances)

abbrev pub allowance : AccountId → AccountId → Erc20 → ℕ
allowance owner spender self = unwrap_or_default (HashMap.get (owner, spender) self.allowances)

unfoldable pub new : AccountId → ℕ → Erc20 × List Event
new caller total_supply = (
  record {
    total_supply = total_supply;
    balances = HashMap.insert caller total_supply [];
    allowances = [];
  },
  transferred none (some caller) total_supply ∷ [],
)

-- `transfer_from_to`, once the balance is large enough.
abbrev move_to : AccountId → AccountId → ℕ → Erc20 → Message
move_to from to value self = do
  let debited = record self {
    balances = HashMap.insert from (balance_of from self - value) self.balances;
  }
  to_balance ← add_u128 (balance_of to debited) value
  ret (
    ok tt,
    record debited { balances = HashMap.insert to to_balance debited.balances },
    transferred (some from) (some to) value ∷ [],
  )

unfoldable pub transfer_from_to : AccountId → AccountId → ℕ → Erc20 → Message
transfer_from_to from to value self =
    if ltb (balance_of from self) value
    then ret (err insufficient_balance, self, [])
    else move_to from to value self

unfoldable pub transfer : AccountId → AccountId → ℕ → Erc20 → Message
unfolding transfer_from_to
transfer caller to value self = transfer_from_to caller to value self

unfoldable pub approve : AccountId → AccountId → ℕ → Erc20 → Message
approve caller spender value self = ret (
  ok tt,
  record self { allowances = HashMap.insert (caller, spender) value self.allowances },
  approval caller spender value ∷ [],
)

-- `transfer_from`, with the result of `transfer_from_to`.
abbrev spend :
    AccountId
    → AccountId
    → ℕ
    → Result (Unit {0}) Error × Erc20 × List Event
    → Result (Unit {0}) Error × Erc20 × List Event
spend from caller left (err e, self, events) = (err e, self, events)
spend from caller left (ok u, self, events) =
    (ok tt, record self { allowances = HashMap.insert (from, caller) left self.allowances }, events)

unfoldable pub transfer_from : AccountId → AccountId → AccountId → ℕ → Erc20 → Message
unfolding transfer_from_to
transfer_from caller from to value self =
    if ltb (allowance from caller self) value
    then ret (err insufficient_allowance, self, [])
    else (do
      moved ← transfer_from_to from to value self
      ret (spend from caller (allowance from caller self - value) moved))
