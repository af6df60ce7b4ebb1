-- ===== src/Contracts/Multisig/Replace.antt =====
-- The replacement of an owner keeps the invariant of the wallet.
use ink.Prelude.{
  ℕ, ◌+◌, ◌<◌, ◌≡◌, refl, false, inl, inr, some, List, bytes_eq, nat_eq, pair_eq, if◌then◌else◌,
  ret, arith, ◌==◌, Outcome-cases,
}
use ink.Prelude.HashMap
use ink.Prelude.HashMap.{HashMap}
use ink.Contracts.Totals.{count, length-assign, total-assign, position, assign, position-some}
use ink.Contracts.Multisig.{
  AccountId, TransactionId, Multisig, Env, Event, ensure_owner, ensure_no_owner, owner_index,
  clean_loop, clean_owner_confirmations, replace_owner,
}
use ink.Contracts.Multisig.Invariant.{confirmed_by, IsValid}
use ink.Contracts.Multisig.Clean.{clean_loop-Cleaned}
use ink.Contracts.Multisig.Leave.{Leaves, cleaned-valid}

abbrev with_replaced : AccountId → AccountId → ℕ → Multisig → Multisig
with_replaced old_owner new_owner i m = record m {
  owners = assign i new_owner m.owners;
  is_owner = HashMap.insert new_owner tt (HashMap.remove old_owner m.is_owner);
}

replace_owner-parts :
    (env : Env) (old_owner new_owner : AccountId) (m m' : Multisig) (u : Unit {0})
    (events : List Event) (i : ℕ)
    → position old_owner m.owners ≡ some i
    → replace_owner env old_owner new_owner m ≡ ret (u, m', events)
    → clean_loop old_owner m.transaction_ids (with_replaced old_owner new_owner i m) ≡ ret m'
unfolding replace_owner owner_index clean_owner_confirmations
replace_owner-parts env old_owner new_owner m m' u events i at run =
    elim (Outcome-cases
      (clean_loop old_owner m.transaction_ids (with_replaced old_owner new_owner i m))) [
        | inl p ↦ absurd (ground arith)
        | inr (x, e) ↦ ground arith
      ]

module _ (old_owner new_owner : AccountId) (i : ℕ) (m : Multisig) (v : IsValid m)
    (at : position old_owner m.owners ≡ some i) (is_one : 0 < count old_owner m.owners)
    (is_new : count new_owner m.owners ≡ 0) where
  different : (old_owner == new_owner) ≡ false
  different = ground (arith, bytes_eq.decides old_owner new_owner)

  count-replaced :
      (o : AccountId)
      → count o (assign i new_owner m.owners) + (if o == old_owner then 1 else 0)
        ≡ count o m.owners + (if o == new_owner then 1 else 0)
  count-replaced o = total-assign (λ x. if o == x then 1 else 0) new_owner old_owner m.owners i at

  nobody : (s : TransactionId) → confirmed_by m s new_owner ≡ 0
  nobody s = ground (arith, v.confirmations.by_owners s new_owner)

  with_replaced-Leaves : Leaves old_owner m (assign i new_owner m.owners)
  with_replaced-Leaves = record {
    gone = ground (
      arith,
      count-replaced old_owner,
      v.owners.distinct old_owner,
      different,
      bytes_eq.decides old_owner old_owner,
    );
    others = λ p other there. ground (arith, count-replaced p);
    weight = λ s.
        omega (arith, nobody s, total-assign (confirmed_by m s) new_owner old_owner m.owners i at);
  }

  with_replaced-IsValid :
      (m' : Multisig)
      → clean_loop old_owner m.transaction_ids (with_replaced old_owner new_owner i m) ≡ ret m'
      → IsValid m'
  with_replaced-IsValid m' run =
      let n = with_replaced old_owner new_owner i m in
      let c = clean_loop-Cleaned old_owner m.transaction_ids n m' run in
      let len = length-assign i new_owner m.owners in
      record {
        owners =
            rw (c.same_requirement, c.same_owners, c.same_is_owner)
              (record {
                required = v.owners.required;
                enough = omega (arith, len, v.owners.enough);
                few = omega (arith, len, v.owners.few);
                distinct = λ o. ground (
                  arith,
                  count-replaced o,
                  v.owners.distinct o,
                  is_new,
                  bytes_eq.decides o new_owner,
                );
                known = λ o. ground (
                  arith,
                  count-replaced o,
                  v.owners.known o,
                  v.owners.distinct o,
                  HashMap.get-insert o new_owner tt (HashMap.remove old_owner m.is_owner),
                  HashMap.get-remove o old_owner m.is_owner,
                  bytes_eq.decides o old_owner,
                  bytes_eq.decides o new_owner,
                );
              });
        transactions = rw (c.same_transactions, c.same_ids, c.same_next) v.transactions;
        confirmations = cleaned-valid old_owner m n m' v with_replaced-Leaves refl refl refl c;
      }

-- `replace_owner` keeps the invariant.
pub replace_owner-IsValid :
    (env : Env) (old_owner new_owner : AccountId) (m m' : Multisig) (u : Unit {0})
    (events : List Event)
    → IsValid m
    → replace_owner env old_owner new_owner m ≡ ret (u, m', events)
    → IsValid m'
unfolding replace_owner ensure_owner ensure_no_owner
replace_owner-IsValid env old_owner new_owner m m' u events v run =
    let is_one : 0 < count old_owner m.owners = ground (arith, v.owners.known old_owner) in
    let is_new : count new_owner m.owners ≡ 0 = ground (arith, v.owners.known new_owner) in
    let (i, at, below) = position-some old_owner m.owners is_one in
    with_replaced-IsValid old_owner new_owner i m v at is_one is_new m'
      (replace_owner-parts env old_owner new_owner m m' u events i at run)
