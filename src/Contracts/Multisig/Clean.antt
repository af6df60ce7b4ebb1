-- ===== src/Contracts/Multisig/Clean.antt =====
-- What is left of the confirmations of an owner who is removed.
use ink.Prelude.{
  ◌-◌, ◌≡◌, ◌≢◌, refl, subst, Option-cases, inl, inr, none, some, List, [], ◌∷◌, bytes_eq, nat_eq,
  nat_beq, pair_eq, if◌then◌else◌, ret, arith, ◌==◌, >>=-eq-ret,
}
use ink.Prelude.HashMap
use ink.Prelude.HashMap.{HashMap}
use ink.Contracts.Totals.{count, count-nil, count-cons}
use ink.Contracts.Multisig.{
  AccountId, TransactionId, Multisig, is_some, unwrap_or, clean_confirmation, clean_loop,
}

-- The wallet after the loop over `ts`.
pub record Cleaned (owner : AccountId) (ts : List TransactionId) (m m' : Multisig) : Type 0 where
  pub same_transactions : m'.transactions ≡ m.transactions
  pub same_ids : m'.transaction_ids ≡ m.transaction_ids
  pub same_next : m'.next_id ≡ m.next_id
  pub same_owners : m'.owners ≡ m.owners
  pub same_is_owner : m'.is_owner ≡ m.is_owner
  pub same_requirement : m'.requirement ≡ m.requirement
  pub confirmation :
      (s : TransactionId) (p : AccountId)
      → HashMap.get (s, p) m'.confirmations ≡ (
          if p == owner
          then (if nat_beq (count s ts) 0 then HashMap.get (s, p) m.confirmations else none)
          else HashMap.get (s, p) m.confirmations)
  pub counted :
      (s : TransactionId)
      → HashMap.get s m'.confirmation_count ≡ (
          if nat_beq (count s ts) 0
          then HashMap.get s m.confirmation_count
          else if is_some (HashMap.get (s, owner) m.confirmations)
          then some (unwrap_or 0 (HashMap.get s m.confirmation_count) - 1)
          else HashMap.get s m.confirmation_count)

abbrev uncounted : AccountId → TransactionId → Multisig → Multisig
uncounted owner t m = record m {
  confirmations = HashMap.remove (t, owner) m.confirmations;
  confirmation_count =
      HashMap.insert t (unwrap_or 0 (HashMap.get t m.confirmation_count) - 1) m.confirmation_count;
}

module _ (owner : AccountId) where
  -- The first round, and the others.
  clean_loop-step :
      (t : TransactionId) (ts : List TransactionId) (m m' : Multisig)
      → clean_loop owner (t ∷ ts) m ≡ ret m'
      → (n : Multisig) × (clean_confirmation owner t m ≡ ret n) × (clean_loop owner ts n ≡ ret m')
  unfolding clean_loop
  clean_loop-step t ts m m' run = >>=-eq-ret (clean_confirmation owner t m) _ run

  clean_loop-free :
      (t : TransactionId) (m n : Multisig)
      → clean_confirmation owner t m ≡ ret n
      → HashMap.get (t, owner) m.confirmations ≡ none
      → n ≡ m
  unfolding clean_confirmation
  clean_loop-free t m n run free = ground arith

  clean_loop-taken :
      (t : TransactionId) (m n : Multisig)
      → clean_confirmation owner t m ≡ ret n
      → HashMap.get (t, owner) m.confirmations ≢ none
      → n ≡ uncounted owner t m
  unfolding clean_confirmation
  clean_loop-taken t m n run taken = ground arith

  uncounted-Cleaned :
      (t : TransactionId) (ts : List TransactionId) (m m' : Multisig)
      → HashMap.get (t, owner) m.confirmations ≢ none
      → Cleaned owner ts (uncounted owner t m) m'
      → Cleaned owner (t ∷ ts) m m'
  uncounted-Cleaned t ts m m' taken c = record {
    same_transactions = c.same_transactions;
    same_ids = c.same_ids;
    same_next = c.same_next;
    same_owners = c.same_owners;
    same_is_owner = c.same_is_owner;
    same_requirement = c.same_requirement;
    confirmation = λ s p. ground (
      arith,
      c.confirmation s p,
      count-cons s t ts,
      HashMap.get-remove (s, p) (t, owner) m.confirmations,
      nat_eq.decides s t,
      bytes_eq.decides p owner,
    );
    counted = λ s. ground (
      arith,
      c.counted s,
      count-cons s t ts,
      HashMap.get-remove (s, owner) (t, owner) m.confirmations,
      HashMap.get-insert s t (unwrap_or 0 (HashMap.get t m.confirmation_count) - 1)
          m.confirmation_count,
      nat_eq.decides s t,
      bytes_eq.decides owner owner,
    );
  }

  free-Cleaned :
      (t : TransactionId) (ts : List TransactionId) (m m' : Multisig)
      → HashMap.get (t, owner) m.confirmations ≡ none
      → Cleaned owner ts m m'
      → Cleaned owner (t ∷ ts) m m'
  free-Cleaned t ts m m' free c = record {
    same_transactions = c.same_transactions;
    same_ids = c.same_ids;
    same_next = c.same_next;
    same_owners = c.same_owners;
    same_is_owner = c.same_is_owner;
    same_requirement = c.same_requirement;
    confirmation = λ s p. ground (
      arith,
      c.confirmation s p,
      count-cons s t ts,
      nat_eq.decides s t,
      bytes_eq.decides p owner,
    );
    counted = λ s. ground (arith, c.counted s, count-cons s t ts, nat_eq.decides s t);
  }

  clean_loop-nil : (m m' : Multisig) → clean_loop owner [] m ≡ ret m' → Cleaned owner [] m m'
  unfolding clean_loop
  clean_loop-nil m m' run =
      let same : m ≡ m' = ground arith in
      subst (Cleaned owner [] m) same (record {
        same_transactions = refl;
        same_ids = refl;
        same_next = refl;
        same_owners = refl;
        same_is_owner = refl;
        same_requirement = refl;
        confirmation = λ s p. ground (arith, count-nil s);
        counted = λ s. ground (arith, count-nil s);
      })

  pub clean_loop-Cleaned :
      (ts : List TransactionId) (m m' : Multisig)
      → clean_loop owner ts m ≡ ret m'
      → Cleaned owner ts m m'
  clean_loop-Cleaned [] m m' run = clean_loop-nil m m' run
  clean_loop-Cleaned (t ∷ ts) m m' run =
      let (n, first, rest) = clean_loop-step t ts m m' run in
      elim (Option-cases (HashMap.get (t, owner) m.confirmations)) [
        | inl free ↦ free-Cleaned t ts m m' free (
            clean_loop-Cleaned ts m m'
              (subst (λ x. clean_loop owner ts x ≡ ret m') (clean_loop-free t m n first free) rest))
        | inr (u, e) ↦
            let taken : HashMap.get (t, owner) m.confirmations ≢ none = ground arith in
            uncounted-Cleaned t ts m m' taken (
              clean_loop-Cleaned ts (uncounted owner t m) m' (
                subst (λ x. clean_loop owner ts x ≡ ret m') (clean_loop-taken t m n first taken)
                  rest))
      ]
