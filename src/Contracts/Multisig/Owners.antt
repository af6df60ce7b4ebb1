-- ===== src/Contracts/Multisig/Owners.antt =====
-- The messages that change the owners keep the invariant of the wallet.
use ink.Prelude.{
  ℕ, ◌+◌, ◌≤◌, ◌<◌, ◌≡◌, subst, List, [], ◌∷◌, ◌++◌, length, bytes_eq, nat_eq, pair_eq,
  if◌then◌else◌, ret, arith, ◌==◌, length-append,
}
use ink.Prelude.HashMap
use ink.Prelude.HashMap.{HashMap}
use ink.Contracts.Totals.{count, total-push}
use ink.Contracts.Multisig.{
  AccountId, TransactionId, Multisig, Env, Event, max_owners, ensure_no_owner,
  ensure_requirement_is_valid, add_owner, change_requirement,
}
use ink.Contracts.Multisig.Invariant.{confirmed_by, IsValid}

-- A list of owners that is valid for a requirement.
pub ensure_requirement_is_valid_ok :
    (owners requirement : ℕ)
    → ensure_requirement_is_valid owners requirement ≡ ret tt
    → (0 < requirement) × (requirement ≤ owners) × (owners ≤ max_owners)
unfolding ensure_requirement_is_valid
ensure_requirement_is_valid_ok owners requirement h = (ground arith, ground arith, ground arith)

length-push : (xs : List AccountId) (a : AccountId) → length (xs ++ a ∷ []) ≡ length xs + 1
length-push xs a = omega (arith, length-append xs (a ∷ []))

-- `add_owner` keeps the invariant.
pub add_owner-IsValid :
    (env : Env) (new_owner : AccountId) (m m' : Multisig) (u : Unit {0}) (events : List Event)
    → IsValid m
    → add_owner env new_owner m ≡ ret (u, m', events)
    → IsValid m'
unfolding add_owner ensure_no_owner
add_owner-IsValid env new_owner m m' u events v run =
    let n : Multisig = record m {
      is_owner = HashMap.insert new_owner tt m.is_owner;
      owners = m.owners ++ new_owner ∷ [];
    } in
    let same : n ≡ m' = ground arith in
    let len = length m.owners + 1 in
    let checked : ensure_requirement_is_valid len m.requirement ≡ ret tt =
      ground (arith, v.owners.few) in
    let (required, enough, few) = ensure_requirement_is_valid_ok len m.requirement checked in
    let new : count new_owner m.owners ≡ 0 = ground (arith, v.owners.known new_owner) in
    let pushed : (o : AccountId)
        → count o n.owners ≡ count o m.owners + (if o == new_owner then 1 else 0) =
      λ o. total-push (λ x. if o == x then 1 else 0) m.owners new_owner in
    let nobody : (s : TransactionId) → confirmed_by m s new_owner ≡ 0 =
      λ s. ground (arith, v.confirmations.by_owners s new_owner) in
    subst IsValid same (record {
      owners = record {
        required = required;
        enough = omega (arith, length-push m.owners new_owner);
        few = omega (arith, length-push m.owners new_owner);
        distinct = λ o. ground (arith, pushed o, v.owners.distinct o, bytes_eq.decides o new_owner);
        known = λ o. ground (
          arith,
          pushed o,
          v.owners.known o,
          HashMap.get-insert o new_owner tt m.is_owner,
          bytes_eq.decides o new_owner,
        );
      };
      transactions = v.transactions;
      confirmations = record {
        by_owners = λ s p h. ground (arith, pushed p, v.confirmations.by_owners s p h);
        counted = λ s. ground (
          arith,
          v.confirmations.counted s,
          total-push (confirmed_by m s) m.owners new_owner,
          nobody s,
        );
      };
    })

-- `change_requirement` keeps the invariant.
pub change_requirement-IsValid :
    (env : Env) (new_requirement : ℕ) (m m' : Multisig) (u : Unit {0}) (events : List Event)
    → IsValid m
    → change_requirement env new_requirement m ≡ ret (u, m', events)
    → IsValid m'
unfolding change_requirement
change_requirement-IsValid env new_requirement m m' u events v run =
    let n : Multisig = record m { requirement = new_requirement } in
    let same : n ≡ m' = ground arith in
    let checked : ensure_requirement_is_valid (length m.owners) new_requirement ≡ ret tt =
      ground (arith, v.owners.few) in
    let (required, enough, few) =
      ensure_requirement_is_valid_ok (length m.owners) new_requirement checked in
    subst IsValid same (record {
      owners = record {
        required = required;
        enough = enough;
        few = few;
        distinct = v.owners.distinct;
        known = v.owners.known;
      };
      transactions = v.transactions;
      confirmations = record {
        by_owners = v.confirmations.by_owners;
        counted = v.confirmations.counted;
      };
    })
