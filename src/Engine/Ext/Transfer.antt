-- ===== src/Engine/Ext/Transfer.antt =====
-- What `Engine::transfer` and `Engine::terminate` do to the balances.
use ink.Prelude.{
  ℕ, ◌+◌, ◌-◌, ◌≤◌, ◌<◌, ◌≡◌, ◌≢◌, ◌⊎◌, refl, ap, ◌∙◌, Option, none, some, ret, panic, arith,
  beq_refl, beq_false_of_ne, if◌then◌else◌, ◌==◌, bytes_eq,
}
use ink.Prelude.Result.{ok, err}
use ink.Engine.Host.{Bytes, Host, HostLaws, u128_mod}
use ink.Engine.Database
use ink.Engine.Database.Laws.{get_balance-set_balance, get_from_contract_storage-set_balance}
use ink.Engine.State.{Engine, transfer_failed}
use ink.Engine.TestApi.{get_balance, get_callee}
use ink.Engine.Ext.{transfer, terminate}

abbrev pub held : Option ℕ → ℕ
held none = 0
held (some n) = n

module _ ⦃host : Host⦄ where
  -- The account has this entry in the database.
  abbrev pub Holds : Bytes → Option ℕ → Engine → Type 0
  Holds a o e = Database.get_balance a e.database ≡ ret o

  -- Storage is untouched, and so is the rest of the engine.
  pub record SameRest (e f : Engine) : Type 0 where
    pub same_storage :
        (a k : Bytes)
        → Database.get_from_contract_storage a k f.database
          ≡ Database.get_from_contract_storage a k e.database
    pub same_context : f.exec_context ≡ e.exec_context
    pub same_debug_info : f.debug_info ≡ e.debug_info

  -- The state that a transfer of `v` leaves.
  abbrev pub moved : Bytes → Bytes → ℕ → ℕ → Engine → Engine
  moved contract dest left raised e = record e {
    database = Database.set_balance dest raised (Database.set_balance contract left e.database);
  }

module _ ⦃host : Host⦄ (laws : HostLaws host) where
  transfer_runs :
      (dest contract value : Bytes) (e : Engine) (b v : ℕ) (o : Option ℕ)
      → host.decode_u128 value ≡ some v
      → e.exec_context.callee ≡ some contract
      → Holds contract (some b) e
      → Holds dest o e
      → v ≤ b
      → held o + v < u128_mod
      → transfer dest value e ≡ ret (ok tt, moved contract dest (b - v) (held o + v) e)
  unfolding transfer get_balance get_callee
  transfer_runs dest contract value e b v none dv dc hc hd le lt = ground arith
  transfer_runs dest contract value e b v (some d) dv dc hc hd le lt = ground arith

  balance_of_moved :
      (a contract dest : Bytes) (left raised : ℕ) (e : Engine)
      → left < u128_mod
      → raised < u128_mod
      → Database.get_balance a (moved contract dest left raised e).database ≡ (
          if a == dest
          then ret (some raised)
          else if a == contract
          then ret (some left)
          else Database.get_balance a e.database)
  balance_of_moved a contract dest left raised e hl hr = rw (
    get_balance-set_balance laws a dest raised _ hr,
    get_balance-set_balance laws a contract left _ hl,
  )

  moved-SameRest :
      (contract dest : Bytes) (left raised : ℕ) (e : Engine)
      → SameRest e (moved contract dest left raised e)
  moved-SameRest contract dest left raised e = record {
    same_storage = λ a k.
        rw (get_from_contract_storage-set_balance laws, get_from_contract_storage-set_balance laws);
    same_context = refl;
    same_debug_info = refl;
  }

  -- A transfer of `v` to another account debits the callee, whose balance covers it, and credits the
  -- other account, whose balance then is below 2 ^ 128. Every other balance, the storage, the context
  -- and the records are kept.
  pub transfer_moves :
      (dest contract value : Bytes) (e : Engine) (b v : ℕ) (o : Option ℕ)
      → host.decode_u128 value ≡ some v
      → e.exec_context.callee ≡ some contract
      → contract ≢ dest
      → Holds contract (some b) e
      → Holds dest o e
      → v ≤ b
      → b < u128_mod
      → held o + v < u128_mod
      → (f : Engine) × (transfer dest value e ≡ ret (ok tt, f))
        × Holds contract (some (b - v)) f
        × Holds dest (some (held o + v)) f
        × ((a : Bytes)
            → Database.get_balance a f.database ≡ (
                if a == dest
                then ret (some (held o + v))
                else if a == contract
                then ret (some (b - v))
                else Database.get_balance a e.database))
        × SameRest e f
  transfer_moves dest contract value e b v o dv dc ne hc hd le hb lt =
      let small : b - v < u128_mod = omega arith in
      (
        moved contract dest (b - v) (held o + v) e,
        transfer_runs dest contract value e b v o dv dc hc hd le lt,
        rw (balance_of_moved contract contract dest (b - v) (held o + v) e small lt)
            (rw (beq_false_of_ne contract dest ne, beq_refl contract)),
        rw (balance_of_moved dest contract dest (b - v) (held o + v) e small lt)
            (rw (beq_refl dest)),
        (λ a. balance_of_moved a contract dest (b - v) (held o + v) e small lt),
        moved-SameRest contract dest (b - v) (held o + v) e,
      )

  -- A transfer of `v` from the callee to itself, which its balance covers, raises that balance by `v`,
  -- if it stays below 2 ^ 128.
  pub transfer_to_self :
      (contract value : Bytes) (e : Engine) (b v : ℕ)
      → host.decode_u128 value ≡ some v
      → e.exec_context.callee ≡ some contract
      → Holds contract (some b) e
      → v ≤ b
      → b + v < u128_mod
      → (f : Engine) × (transfer contract value e ≡ ret (ok tt, f))
        × Holds contract (some (b + v)) f
  transfer_to_self contract value e b v dv dc hc le lt = (
    moved contract contract (b - v) (b + v) e,
    transfer_runs contract contract value e b v (some b) dv dc hc hc le lt,
    rw (balance_of_moved contract contract contract (b - v) (b + v) e (omega arith) lt)
        (rw (beq_refl contract)),
  )

  -- `transfer` returns `TransferFailed` and changes nothing if the value cannot be decoded or the callee
  -- has no entry.
  pub transfer_fails :
      (dest contract value : Bytes) (e : Engine) (o : Option ℕ)
      → e.exec_context.callee ≡ some contract
      → Holds dest o e
      → (host.decode_u128 value ≡ none) ⊎ Holds contract none e
      → transfer dest value e ≡ ret (err transfer_failed, e)
  unfolding transfer get_balance get_callee
  transfer_fails dest contract value e o dc hd h = ground arith

  -- A transfer of more than the callee's balance panics.
  pub transfer_overdraft :
      (dest contract value : Bytes) (e : Engine) (b v : ℕ) (o : Option ℕ)
      → host.decode_u128 value ≡ some v
      → e.exec_context.callee ≡ some contract
      → Holds contract (some b) e
      → Holds dest o e
      → b < v
      → transfer dest value e ≡ panic
  unfolding transfer get_balance get_callee
  transfer_overdraft dest contract value e b v o dv dc hc hd lt = ground arith

  -- `terminate` ends with the encoded balance and beneficiary, after it has moved the whole balance of
  -- the callee to another account, whose balance then is below 2 ^ 128.
  terminate_pays :
      (beneficiary contract : Bytes) (e : Engine) (b : ℕ) (o : Option ℕ)
      → e.exec_context.callee ≡ some contract
      → contract ≢ beneficiary
      → Holds contract (some b) e
      → Holds beneficiary o e
      → held o + b < u128_mod
      → (f : Engine) × (terminate beneficiary e ≡ ret (host.encode_termination b beneficiary, f))
        × Holds contract (some 0) f
        × Holds beneficiary (some (held o + b)) f
  unfolding terminate get_balance get_callee
  terminate_pays beneficiary contract e b o dc ne hc hd lt =
      let (f, run, hc', hd', _, _) =
        transfer_moves beneficiary contract (host.encode_u128 b) e b b o
          (laws.decode-encode_u128 b (omega arith)) dc ne hc hd (omega arith) (omega arith) lt in
      (f, ground (arith, run), hc' ∙ ap (λ (n : ℕ). ret (some n)) (omega arith), hd')
