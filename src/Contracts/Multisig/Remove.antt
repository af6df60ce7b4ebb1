-- ===== src/Contracts/Multisig/Remove.antt =====
-- The messages by which an owner leaves keep the invariant of the wallet.
use ink.Prelude.{
  ℕ, ◌+◌, ◌-◌, ◌≤◌, ◌<◌, ◌≡◌, refl, inl, inr, some, List, length, bytes_eq, nat_eq, leb, pair_eq,
  if◌then◌else◌, ret, arith, ◌==◌, Outcome-cases,
}
use ink.Prelude.HashMap
use ink.Prelude.HashMap.{HashMap}
use ink.Contracts.Totals.{
  count, total-swapped, total-one, swapped, position, swap_remove, position-some,
}
use ink.Contracts.Multisig.{
  AccountId, Multisig, Env, Event, max_owners, owners_len, ensure_owner,
  ensure_requirement_is_valid, owner_index, clean_loop, clean_owner_confirmations, remove_owner,
}
use ink.Contracts.Multisig.Invariant.{confirmed_by, IsValid}
use ink.Contracts.Multisig.Clean.{clean_loop-Cleaned}
use ink.Contracts.Multisig.Leave.{Leaves, cleaned-valid}
use ink.Contracts.Multisig.Owners.{ensure_requirement_is_valid_ok}

-- `u32::min`
abbrev min_u32 : ℕ → ℕ → ℕ
min_u32 a b = if leb a b then a else b

abbrev without_owner : AccountId → ℕ → Multisig → Multisig
without_owner owner i m = record m {
  owners = swapped i m.owners;
  is_owner = HashMap.remove owner m.is_owner;
  requirement = min_u32 (length m.owners - 1) m.requirement;
}

remove_owner-parts :
    (env : Env) (owner : AccountId) (m m' : Multisig) (u : Unit {0}) (events : List Event) (i : ℕ)
    → length m.owners ≤ max_owners
    → position owner m.owners ≡ some i
    → remove_owner env owner m ≡ ret (u, m', events)
    → (ensure_requirement_is_valid
          (length m.owners - 1)
          (min_u32 (length m.owners - 1) m.requirement)
        ≡ ret tt)
      × (clean_loop owner m.transaction_ids (without_owner owner i m) ≡ ret m')
unfolding remove_owner owner_index swap_remove clean_owner_confirmations
remove_owner-parts env owner m m' u events i few at run =
    let len : owners_len m.owners ≡ length m.owners = omega arith in
    elim (Outcome-cases (clean_loop owner m.transaction_ids (without_owner owner i m))) [
      | inl p ↦ absurd (ground (arith, len))
      | inr (x, e) ↦ (ground (arith, len), ground (arith, len))
    ]

module _ (owner : AccountId) (i : ℕ) (m : Multisig) (v : IsValid m)
    (at : position owner m.owners ≡ some i) where
  count-left :
      (o : AccountId)
      → count o (swapped i m.owners) + (if o == owner then 1 else 0) ≡ count o m.owners
  count-left o = total-swapped (λ x. if o == x then 1 else 0) owner m.owners i at

  length-left : length (swapped i m.owners) + 1 ≡ length m.owners
  length-left =
      let weights = total-swapped (λ _. 1) owner m.owners i at in
      omega (arith, weights, total-one m.owners, total-one (swapped i m.owners))

  without_owner-Leaves : Leaves owner m (swapped i m.owners)
  without_owner-Leaves = record {
    gone = ground (arith, count-left owner, v.owners.distinct owner, bytes_eq.decides owner owner);
    others = λ p other there. ground (arith, count-left p);
    weight = λ s. total-swapped (confirmed_by m s) owner m.owners i at;
  }

  without_owner-IsValid :
      (m' : Multisig)
      → ensure_requirement_is_valid
          (length m.owners - 1)
          (min_u32 (length m.owners - 1) m.requirement)
        ≡ ret tt
      → clean_loop owner m.transaction_ids (without_owner owner i m) ≡ ret m'
      → IsValid m'
  without_owner-IsValid m' checked run =
      let c = clean_loop-Cleaned owner m.transaction_ids (without_owner owner i m) m' run in
      let (required, enough, few) =
        ensure_requirement_is_valid_ok (length m.owners - 1)
          (min_u32 (length m.owners - 1) m.requirement) checked in
      record {
        owners =
            rw (c.same_requirement, c.same_owners, c.same_is_owner)
              (record {
                required = required;
                enough = omega (arith, length-left, enough);
                few = omega (arith, length-left, few);
                distinct = λ o. ground (arith, count-left o, v.owners.distinct o);
                known = λ o. ground (
                  arith,
                  count-left o,
                  v.owners.known o,
                  v.owners.distinct o,
                  HashMap.get-remove o owner m.is_owner,
                  bytes_eq.decides o owner,
                );
              });
        transactions = rw (c.same_transactions, c.same_ids, c.same_next) v.transactions;
        confirmations =
            cleaned-valid owner m (without_owner owner i m) m' v without_owner-Leaves refl refl refl
              c;
      }

-- `remove_owner` keeps the invariant.
pub remove_owner-IsValid :
    (env : Env) (owner : AccountId) (m m' : Multisig) (u : Unit {0}) (events : List Event)
    → IsValid m
    → remove_owner env owner m ≡ ret (u, m', events)
    → IsValid m'
unfolding remove_owner ensure_owner
remove_owner-IsValid env owner m m' u events v run =
    let is_one : 0 < count owner m.owners = ground (arith, v.owners.known owner) in
    let (i, at, below) = position-some owner m.owners is_one in
    let (checked, ran) = remove_owner-parts env owner m m' u events i v.owners.few at run in
    without_owner-IsValid owner i m v at m' checked ran
