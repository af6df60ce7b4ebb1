-- ===== src/Contracts/Multisig/New.antt =====
-- The constructor of the wallet, integration-tests/multisig/lib.rs, and that it makes a valid one.
use ink.Prelude.{
  ℕ, ◌≤◌, ◌<◌, ◌≡◌, subst, some, List, [], ◌∷◌, length, bytes_eq, nat_eq, nat_beq, pair_eq,
  if◌then◌else◌, ret, arith,
}
use ink.Prelude.HashMap
use ink.Prelude.HashMap.{HashMap}
use ink.Contracts.Totals.{count, count-nil, count-cons}
use ink.Contracts.Multisig.{AccountId, Transaction, Multisig, ensure_requirement_is_valid}
use ink.Contracts.Multisig.Invariant.{IsValid}
use ink.Prelude.{Outcome, ◌>>◌}
use ink.Contracts.Multisig.{owners_len, u32_mod}
use ink.Contracts.Multisig.Owners.{ensure_requirement_is_valid_ok}
use ink.Contracts.Multisig.Sort.{sort, dedup, count-dedup-sort, length-dedup-sort}

-- `for owner in &owners { contract.is_owner.insert(owner, &()); }`
unfoldable pub insert_owners :
    List AccountId → HashMap AccountId (Unit {0}) → HashMap AccountId (Unit {0})
insert_owners [] is_owner = is_owner
insert_owners (o ∷ os) is_owner = insert_owners os (HashMap.insert o tt is_owner)

abbrev pub initial : ℕ → List AccountId → Multisig
initial requirement owners = record {
  confirmations = [];
  confirmation_count = [];
  transactions = [];
  transaction_ids = [];
  next_id = 0;
  owners = owners;
  is_owner = insert_owners owners [];
  requirement = requirement;
}

unfoldable pub new : ℕ → List AccountId → Outcome Multisig
unfolding insert_owners sort dedup
new requirement owners = do
  ensure_requirement_is_valid (owners_len (dedup (sort owners))) requirement
  ret (initial requirement (dedup (sort owners)))

get-insert_owners :
    (o : AccountId) (os : List AccountId) (is_owner : HashMap AccountId (Unit {0}))
    → HashMap.get o (insert_owners os is_owner)
      ≡ (if nat_beq (count o os) 0 then HashMap.get o is_owner else some tt)
unfolding insert_owners
get-insert_owners o [] is_owner = ground (arith, count-nil o)
get-insert_owners o (p ∷ os) is_owner = ground (
  arith,
  count-cons o p os,
  HashMap.get-insert o p tt is_owner,
  get-insert_owners o os (HashMap.insert p tt is_owner),
  bytes_eq.decides o p,
)

module _ (requirement : ℕ) (owners : List AccountId) where
  initial-IsValid :
      ensure_requirement_is_valid (length owners) requirement ≡ ret tt
      → ((o : AccountId) → count o owners ≤ 1)
      → IsValid (initial requirement owners)
  initial-IsValid checked once =
      let (required, enough, few) =
        ensure_requirement_is_valid_ok (length owners) requirement checked in
      record {
        owners = record {
          required = required;
          enough = enough;
          few = few;
          distinct = once;
          known = λ o.
              ground (arith, get-insert_owners o owners [], HashMap.get-empty {V = Unit {0}} o);
        };
        transactions = record {
          distinct = λ t. omega (arith, count-nil t);
          listed = λ t. ground (arith, count-nil t, HashMap.get-empty {V = Transaction} t);
          below = λ t h. absurd (omega (arith, count-nil t));
        };
        confirmations = record {
          by_owners = λ t o h. absurd (h (HashMap.get-empty (t, o)));
          counted = λ t. ground (arith, count-nil t, HashMap.get-empty {V = ℕ} t);
        };
      }

-- A wallet that `new` makes of fewer than 2 ^ 32 accounts is valid.
pub new-IsValid :
    (requirement : ℕ) (owners : List AccountId) (m : Multisig)
    → length owners < u32_mod
    → new requirement owners ≡ ret m
    → IsValid m
unfolding new
new-IsValid requirement owners m short run =
    let os = dedup (sort owners) in
    let len : owners_len os ≡ length os = omega (arith, length-dedup-sort owners) in
    let checked : ensure_requirement_is_valid (length os) requirement ≡ ret tt =
      ground (arith, len) in
    let same : initial requirement os ≡ m = ground arith in
    subst IsValid same
      (initial-IsValid requirement os checked (λ o. ground (arith, count-dedup-sort o owners)))
