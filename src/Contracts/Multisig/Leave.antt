-- ===== src/Contracts/Multisig/Leave.antt =====
-- The confirmations of an owner who leaves are not counted any more.
use ink.Prelude.{
  ◌+◌, ◌<◌, ◌≡◌, false, none, List, bytes_eq, nat_eq, pair_eq, if◌then◌else◌, arith, ◌==◌,
}
use ink.Prelude.HashMap
use ink.Prelude.HashMap.{HashMap}
use ink.Contracts.Totals.{total, count, total-cong}
use ink.Contracts.Multisig.{AccountId, TransactionId, Multisig}
use ink.Contracts.Multisig.Invariant.{confirmed_by, confirmed_owners, ConfirmationsValid, IsValid}
use ink.Contracts.Multisig.Clean.{Cleaned}

-- The confirmations are valid for the owners `left`, of whom `owner` is not one.
pub record Leaves (owner : AccountId) (m : Multisig) (left : List AccountId) : Type 0 where
  pub gone : count owner left ≡ 0
  pub others : (p : AccountId) → (p == owner) ≡ false → 0 < count p m.owners → 0 < count p left
  pub weight :
      (s : TransactionId)
      → total (confirmed_by m s) left + confirmed_by m s owner ≡ total (confirmed_by m s) m.owners

module _ (owner : AccountId) (m n m' : Multisig) (v : IsValid m) (leaves : Leaves owner m n.owners)
    (same_confirmations : n.confirmations ≡ m.confirmations)
    (same_count : n.confirmation_count ≡ m.confirmation_count)
    (same_ids : n.transaction_ids ≡ m.transaction_ids)
    (c : Cleaned owner m.transaction_ids n m') where
  confirmation-left :
      (s : TransactionId) (p : AccountId)
      → HashMap.get (s, p) m'.confirmations
        ≡ (if p == owner then none else HashMap.get (s, p) m.confirmations)
  confirmation-left s p = ground (
    arith,
    c.confirmation s p,
    same_confirmations,
    v.confirmations.by_owners s p,
    bytes_eq.decides p owner,
  )

  confirmed_owners-left :
      (s : TransactionId)
      → confirmed_owners m' s n.owners + confirmed_by m s owner ≡ confirmed_owners m s m.owners
  confirmed_owners-left s =
      let unchanged =
        total-cong (confirmed_by m' s) (confirmed_by m s) n.owners (λ p there.
          ground (arith, confirmation-left s p, leaves.gone, bytes_eq.decides p owner)) in
      omega (arith, unchanged, leaves.weight s)

  pub cleaned-valid : ConfirmationsValid m'
  cleaned-valid = record {
    by_owners = λ s p h. ground (
      arith,
      confirmation-left s p,
      v.confirmations.by_owners s p,
      leaves.others p,
      c.same_ids,
      same_ids,
      c.same_owners,
    );
    counted = λ s. ground (
      arith,
      c.counted s,
      v.confirmations.counted s,
      confirmed_owners-left s,
      c.same_ids,
      c.same_owners,
      same_ids,
      same_count,
      same_confirmations,
    );
  }
