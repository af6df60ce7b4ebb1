-- ===== src/Contracts/Erc20/Transfers.antt =====
-- What a transfer of the token does, integration-tests/erc20/lib.rs.
use ink.Prelude.{
  ℕ, ◌+◌, ◌-◌, ◌≤◌, ◌≡◌, refl, List, [], ◌∷◌, some, bytes_eq, pair_eq, arith, Bool-cases, inl, inr,
  ◌==◌, ◌&&◌, if◌then◌else◌, ltb, ret,
}
use ink.Prelude.HashMap
use ink.Prelude.HashMap.{HashMap}
use ink.Prelude.Result.{Result, ok, err}
use ink.Contracts.Totals.{total, count}
use ink.Contracts.Erc20.{
  AccountId, Erc20, Event, Error, insufficient_balance, insufficient_allowance, balance_of,
  allowance, unwrap_or_default, transfer_from_to, transfer_from,
}
use ink.Contracts.Erc20.Balances.{Backs, IsBacked, Backs-with, total-at, total-member}

-- The balances after `value` has been moved.
abbrev pub Moved : AccountId → AccountId → ℕ → Erc20 → Erc20 → Type 0
Moved from to value m m' =
    (o : AccountId)
    → balance_of o m' + (if o == from then value else 0)
      ≡ balance_of o m + (if o == to then value else 0)

-- The balances with `value` off the account `from`.
abbrev debit : AccountId → ℕ → (AccountId → ℕ) → AccountId → ℕ
debit from value balance o = balance o - (if o == from then value else 0)

module _ (from to : AccountId) (value : ℕ) where
  -- Both accounts can be taken among the holders.
  Backs-both :
      (holders : List AccountId) (supply : ℕ) (balance : AccountId → ℕ)
      → Backs holders supply balance
      → (more : List AccountId) × Backs more supply balance
        × (count from more ≡ 1)
        × (count to more ≡ 1)
  Backs-both holders supply balance b =
      let (hs, b', one, grown) = Backs-with from holders supply balance b in
      let (hs', b'', one', grown') = Backs-with to hs supply balance b' in
      (hs', b'', omega (arith, grown' from, b''.distinct from), one')

  total-debit :
      (balance : AccountId → ℕ) (holders : List AccountId)
      → count from holders ≡ 1
      → value ≤ balance from
      → total (debit from value balance) holders + value ≡ total balance holders
  total-debit balance holders one enough =
      let at =
        total-at (debit from value balance) balance from holders one
          (λ x h. ground (arith, bytes_eq.decides x from)) in
      ground (arith, at, bytes_eq.decides from from)

  -- A balance and `value` of another are no more than the supply.
  credit-fits :
      (holders : List AccountId) (supply : ℕ) (balance : AccountId → ℕ)
      → Backs holders supply balance
      → value ≤ balance from
      → debit from value balance to + value ≤ supply
  credit-fits holders supply balance b enough =
      let (hs, b', one, one') = Backs-both holders supply balance b in
      let rest = total-debit balance hs one enough in
      let part = total-member (debit from value balance) to hs (omega arith) in
      omega (arith, rest, part, b'.adds_up)

  pub transfer_from_to_lem :
      (m : Erc20)
      → IsBacked m
      → value ≤ balance_of from m
      → (m' : Erc20) × (transfer_from_to from to value m
          ≡ ret (ok tt, m', Event.transferred (some from) (some to) value ∷ []))
        × Moved from to value m m'
        × (m'.total_supply ≡ m.total_supply)
        × (m'.allowances ≡ m.allowances)
  unfolding transfer_from_to
  transfer_from_to_lem m b enough =
      let fits = credit-fits b.holders m.total_supply (λ o. balance_of o m) b.backs enough in
      let bs = HashMap.insert from (balance_of from m - value) m.balances in
      let credited = balance_of to (record m { balances = bs }) + value in
      let at =
        λ (o : AccountId). HashMap.get-insert o from (balance_of from m - value) m.balances in
      (
        record m { balances = HashMap.insert to credited bs },
        ground (arith, fits, at to, bytes_eq.decides to from, b.bound),
        (λ o. ground (
          arith,
          at o,
          at to,
          HashMap.get-insert o to credited bs,
          bytes_eq.decides o to,
          bytes_eq.decides o from,
          bytes_eq.decides to from,
        )),
        refl,
        refl,
      )

  pub Moved-Backs :
      (m m' : Erc20) (holders : List AccountId) (supply : ℕ)
      → Backs holders supply (λ o. balance_of o m)
      → value ≤ balance_of from m
      → Moved from to value m m'
      → (more : List AccountId) × Backs more supply (λ o. balance_of o m')
  Moved-Backs m m' holders supply b enough moved =
      let before = λ (o : AccountId). balance_of o m in
      let after = λ (o : AccountId). balance_of o m' in
      let (hs, b', one, one') = Backs-both holders supply before b in
      let rest = total-debit before hs one enough in
      let at =
        total-at after (debit from value before) to hs one'
          (λ x h. ground (arith, moved x, bytes_eq.decides x to, bytes_eq.decides x from)) in
      (
        hs,
        record {
          distinct = b'.distinct;
          nothing = λ o h.
              ground (arith, moved o, b'.nothing o, bytes_eq.decides o to, bytes_eq.decides o from);
          adds_up = ground (
            arith,
            at,
            rest,
            moved to,
            b'.adds_up,
            bytes_eq.decides to to,
            bytes_eq.decides to from,
          );
        },
      )

spent_allowance :
    (o s from caller : AccountId) (value : ℕ) (m : HashMap (AccountId × AccountId) ℕ)
    → value ≤ unwrap_or_default (HashMap.get (from, caller) m)
    → unwrap_or_default (
          HashMap.get
            (o, s)
            (HashMap.insert
              (from, caller)
              (unwrap_or_default (HashMap.get (from, caller) m) - value)
              m))
        + (if (o == from) && (s == caller) then value else 0)
      ≡ unwrap_or_default (HashMap.get (o, s) m)
spent_allowance o s from caller value m enough =
    let left = unwrap_or_default (HashMap.get (from, caller) m) - value in
    let at = HashMap.get-insert (o, s) (from, caller) left m in
    elim (Bool-cases ((o == from) && (s == caller))) [
      | inl same ↦
          let o_is = (bytes_eq.decides o from).0 (ground arith) in
          let s_is = (bytes_eq.decides s caller).0 (ground arith) in
          rw (at, same) (rw (o_is, s_is) (omega arith))
      | inr other ↦ rw (at, other) (omega arith)
    ]

-- An error changes nothing.
abbrev pub Refused : Error → Erc20 → Result (Unit {0}) Error → Erc20 → List Event → Type 0
Refused e m r m' events = (r ≡ err e) × (m' ≡ m) × (events ≡ [])

-- The value has been moved, and is taken off the allowance of the caller.
pub record Spent (caller from to : AccountId) (value : ℕ) (m : Erc20) (r : Result (Unit {0}) Error)
    (m' : Erc20) (events : List Event) : Type 0 where
  pub succeeds : r ≡ ok tt
  pub moved : Moved from to value m m'
  pub spent :
      (o s : AccountId)
      → allowance o s m' + (if (o == from) && (s == caller) then value else 0) ≡ allowance o s m
  pub supply : m'.total_supply ≡ m.total_supply
  pub told : events ≡ Event.transferred (some from) (some to) value ∷ []

-- `transfer_from` does not panic on a token whose balances add up to its supply, below 2 ^ 128. It
-- fails with `InsufficientAllowance` if the caller's allowance is below the value, and else with
-- `InsufficientBalance` if the balance is; then nothing changes. Otherwise it moves the value, to the
-- same account too, takes it off that allowance and no other, and tells of the transfer.
pub transfer_from_lem :
    (caller from to : AccountId) (value : ℕ) (m : Erc20)
    → IsBacked m
    → (r : Result (Unit {0}) Error) × (m' : Erc20) × (events : List Event) × (transfer_from caller
          from to value m
        ≡ ret (r, m', events))
      × (if ltb (allowance from caller m) value
          then Refused insufficient_allowance m r m' events
          else (if ltb (balance_of from m) value
              then Refused insufficient_balance m r m' events
              else Spent caller from to value m r m' events))
unfolding transfer_from transfer_from_to
transfer_from_lem caller from to value m b =
    elim (Bool-cases (ltb (allowance from caller m) value)) [
      | inl small ↦ (err insufficient_allowance, m, [], ground arith, rw small (refl, refl, refl))
      | inr allowed ↦ elim (Bool-cases (ltb (balance_of from m) value)) [
        | inl small ↦
            (err insufficient_balance, m, [], ground arith, rw (allowed, small) (refl, refl, refl))
        | inr enough ↦
            let (n, run, moved, supply, allowances) =
              transfer_from_to_lem from to value m b (ground arith) in
            let left = allowance from caller m - value in
            (
              ok tt,
              record n { allowances = HashMap.insert (from, caller) left n.allowances },
              Event.transferred (some from) (some to) value ∷ [],
              ground (arith, run),
              rw (allowed, enough)
                  (record {
                    succeeds = refl;
                    moved = moved;
                    spent = λ o s.
                        rw allowances
                          (spent_allowance o s from caller value m.allowances (ground arith));
                    supply = supply;
                    told = refl;
                  }),
            )
      ]
    ]
