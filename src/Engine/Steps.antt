-- ===== src/Engine/Steps.antt =====
-- Runs of the engine as sequences of calls, and what holds in every state that they reach.
use Prim.Native.String.{String}
use ink.Prelude.{
  ℕ, ◌≡◌, refl, sym, ap, subst, ◌∙◌, bytes_eq, Option, some, Bool, ret, length, arith, Option-cases,
  >>=-eq-ret, inl, inr,
}
use ink.Prelude.Result.{Result-cases}
use ink.Prelude.HashMap
use ink.Prelude.HashMap.{HashMap}
use ink.Engine.Host.{Bytes, Host, HostLaws}
use ink.Engine.Database.Laws.{get_from_contract_storage-set_balance, get_from_contract_storage-new}
use ink.Engine.Context
use ink.Engine.DebugInfo
use ink.Engine.State
use ink.Engine.State.{Engine}
use ink.Engine.TestApi.{
  get_callee, set_callee, set_caller, set_balance, get_balance, advance_block, initialize_or_reset,
  set_value_transferred, set_contract, set_block_number, set_block_timestamp,
}
use ink.Engine.ChainExtension
use ink.Engine.ChainExtension.{ChainExtension}
use ink.Engine.Properties.{debug_message, call_chain_extension}
use ink.Engine.Ext.{
  ExtResult, set_storage, get_storage, contains_storage, clear_storage, transfer, terminate,
}
use ink.Engine.Ext.Storage.{cell, after_read, get_storage_state, contains_storage_state}
use ink.Engine.Ext.Cells.{Tracks, set_storage-Tracks, clear_storage-Tracks}
use ink.Engine.Ext.Events.{deposit_event}

module _ ⦃host : Host⦄ (n : ℕ) where
  -- One call. The accounts that act have `n` bytes; `take_storage` is left out, because it does not
  -- keep the record of the cells.
  pub data Step (e : Engine) : Engine → Type 0 where
    sets : (k v : Bytes) (r : Option ℕ) (f : Engine) → set_storage k v e ≡ ret (r, f) → Step e f
    clears : (k : Bytes) (r : Option ℕ) (f : Engine) → clear_storage k e ≡ ret (r, f) → Step e f
    gets :
        (k o p : Bytes) (r : ExtResult) (f : Engine) → get_storage k o e ≡ ret (r, p, f) → Step e f
    asks : (k : Bytes) (r : Option ℕ) (f : Engine) → contains_storage k e ≡ ret (r, f) → Step e f
    pays : (d v : Bytes) (r : ExtResult) (f : Engine) → transfer d v e ≡ ret (r, f) → Step e f
    emits : (t d : Bytes) (f : Engine) → deposit_event t d e ≡ ret f → Step e f
    advances : (f : Engine) → advance_block e ≡ ret f → Step e f
    becomes : (c : Bytes) → length c ≡ n → Step e (set_callee c e)
    called_by : (c : Bytes) → Step e (set_caller c e)
    funds : (a : Bytes) (b : ℕ) → Step e (set_balance a b e)
    sends : (v : ℕ) → Step e (set_value_transferred v e)
    knows : (c : Bytes) → Step e (set_contract c e)
    numbers : (b : ℕ) → Step e (set_block_number b e)
    stamps : (t : ℕ) → Step e (set_block_timestamp t e)
    logs : (message : String) → Step e (debug_message message e)
    registers :
        (x : ChainExtension)
        → Step e (record e {
          chain_extension_handler = ChainExtension.register x e.chain_extension_handler;
        })
    extends :
        (id : ℕ) (i o r : Bytes) (f : Engine)
        → call_chain_extension id i o e ≡ ret (r, f)
        → Step e f
    ends : (b r : Bytes) (f : Engine) → terminate b e ≡ ret (r, f) → Step e f
    resets : Step e (initialize_or_reset e)

  pub data Reach : Engine → Type 0 where
    here : Reach State.new
    next : {e f : Engine} → Reach e → Step e f → Reach f

  pub record IsValid (e : Engine) : Type 0 where
    pub callee_length : (c : Bytes) → e.exec_context.callee ≡ some c → length c ≡ n
    pub tracks : Tracks n e

module _ ⦃host : Host⦄ (laws : HostLaws host) (n : ℕ) where
  same_parts :
      (e f : Engine)
      → f.database ≡ e.database
      → f.debug_info.cells_per_account ≡ e.debug_info.cells_per_account
      → f.exec_context.callee ≡ e.exec_context.callee
      → IsValid n e
      → IsValid n f
  same_parts e f p q r v = record {
    callee_length = λ c h. v.callee_length c (sym r ∙ h);
    tracks = λ a k h. ground (arith, p, q, v.tracks a k h);
  }

  after_read-IsValid : (c : Bytes) (e : Engine) → IsValid n e → IsValid n (after_read c e)
  unfolding DebugInfo.inc_reads
  after_read-IsValid c e v = same_parts e (after_read c e) refl refl refl v

  set_storage-callee :
      (k v : Bytes) (e f : Engine) (r : Option ℕ)
      → set_storage k v e ≡ ret (r, f)
      → (c : Bytes) × (e.exec_context.callee ≡ some c) × (f.exec_context ≡ e.exec_context)
  unfolding set_storage get_callee
  set_storage-callee k v e f r run = elim (Option-cases e.exec_context.callee) [
    | inl none_set ↦ absurd (ground arith)
    | inr (c, found) ↦ (c, found, ground arith)
  ]

  clear_storage-callee :
      (k : Bytes) (e f : Engine) (r : Option ℕ)
      → clear_storage k e ≡ ret (r, f)
      → (c : Bytes) × (e.exec_context.callee ≡ some c) × (f.exec_context ≡ e.exec_context)
  unfolding clear_storage get_callee
  clear_storage-callee k e f r run = elim (Option-cases e.exec_context.callee) [
    | inl none_set ↦ absurd (ground arith)
    | inr (c, found) ↦ (c, found, ground arith)
  ]

  get_storage-callee :
      (k o p : Bytes) (e f : Engine) (r : ExtResult)
      → get_storage k o e ≡ ret (r, p, f)
      → (c : Bytes) × (e.exec_context.callee ≡ some c)
  unfolding get_storage get_callee
  get_storage-callee k o p e f r run = elim (Option-cases e.exec_context.callee) [
    | inl none_set ↦ absurd (ground arith)
    | inr found ↦ found
  ]

  contains_storage-callee :
      (k : Bytes) (e f : Engine) (r : Option ℕ)
      → contains_storage k e ≡ ret (r, f)
      → (c : Bytes) × (e.exec_context.callee ≡ some c)
  unfolding contains_storage get_callee
  contains_storage-callee k e f r run = elim (Option-cases e.exec_context.callee) [
    | inl none_set ↦ absurd (ground arith)
    | inr found ↦ found
  ]

  transfer_keeps :
      (d v : Bytes) (e f : Engine) (r : ExtResult)
      → transfer d v e ≡ ret (r, f)
      → ((a k : Bytes) → cell a k f ≡ cell a k e)
        × (f.debug_info ≡ e.debug_info)
        × (f.exec_context ≡ e.exec_context)
  unfolding transfer get_callee get_balance
  transfer_keeps d v e f r run = (
    (λ a k. grind (arith, get_from_contract_storage-set_balance laws)),
    ground arith,
    ground arith,
  )

  deposit_event_keeps :
      (t d : Bytes) (e f : Engine)
      → deposit_event t d e ≡ ret f
      → (f.database ≡ e.database)
        × (f.debug_info.cells_per_account ≡ e.debug_info.cells_per_account)
        × (f.exec_context ≡ e.exec_context)
  unfolding deposit_event
  deposit_event_keeps t d e f run = ground arith

  advance_block_keeps :
      (e f : Engine)
      → advance_block e ≡ ret f
      → (f.database ≡ e.database)
        × (f.debug_info ≡ e.debug_info)
        × (f.exec_context.callee ≡ e.exec_context.callee)
  unfolding advance_block
  advance_block_keeps e f run = ground arith

  call_chain_extension_keeps :
      (id : ℕ) (i o r : Bytes) (e f : Engine)
      → call_chain_extension id i o e ≡ ret (r, f)
      → (f.database ≡ e.database)
        × (f.debug_info ≡ e.debug_info)
        × (f.exec_context ≡ e.exec_context)
  unfolding call_chain_extension
  call_chain_extension_keeps id i o r e f run = ground arith

  terminate-transfer :
      (b r : Bytes) (e f : Engine)
      → terminate b e ≡ ret (r, f)
      → (v : Bytes) × (x : ExtResult) × (transfer b v e ≡ ret (x, f))
  unfolding terminate
  terminate-transfer b r e f run =
      let (contract, called, r1) = >>=-eq-ret (get_callee e) _ run in
      let (balance, found, r2) = >>=-eq-ret (get_balance contract e) _ r1 in
      elim (Result-cases balance) [
        | inl (all, is) ↦
            let (moved, ran, r3) =
              >>=-eq-ret (transfer b (host.encode_u128 all) e) _ (rw is at r2) in
            (host.encode_u128 all, moved.0, ground arith)
        | inr (x, is) ↦ absurd (ground (arith, rw is at r2))
      ]

  transfer-IsValid :
      (d v : Bytes) (e f : Engine) (r : ExtResult)
      → transfer d v e ≡ ret (r, f)
      → IsValid n e
      → IsValid n f
  transfer-IsValid d v e f r run h =
      let (cells, info, context) = transfer_keeps d v e f r run in
      record {
        callee_length =
            λ c g. h.callee_length c (ap (λ (x : Context.ExecContext). x.callee) (sym context) ∙ g);
        tracks = λ a k l. ground (arith, cells a k, info, h.tracks a k l);
      }

  new-Tracks : Tracks n State.new
  new-Tracks a k h =
      ground
        (arith, get_from_contract_storage-new a k, HashMap.get-empty {V = HashMap Bytes Bool} a)

  Step-IsValid : {e f : Engine} → Step n e f → IsValid n e → IsValid n f
  unfolding set_callee set_caller set_balance set_value_transferred set_contract initialize_or_reset
      set_block_number set_block_timestamp debug_message DebugInfo.record_debug_message
  Step-IsValid {e} (sets k v r f run) h =
      let (c, found, same) = set_storage-callee k v e f r run in
      record {
        callee_length =
            λ d g. h.callee_length d (ap (λ (x : Context.ExecContext). x.callee) (sym same) ∙ g);
        tracks = set_storage-Tracks laws n c k v e f r found (h.callee_length c found) run h.tracks;
      }
  Step-IsValid {e} (clears k r f run) h =
      let (c, found, same) = clear_storage-callee k e f r run in
      record {
        callee_length =
            λ d g. h.callee_length d (ap (λ (x : Context.ExecContext). x.callee) (sym same) ∙ g);
        tracks = clear_storage-Tracks laws n c k e f r found (h.callee_length c found) run h.tracks;
      }
  Step-IsValid {e} (gets k o p r f run) h =
      let (c, found) = get_storage-callee k o p e f r run in
      subst (IsValid n) (sym (get_storage_state c e found k o p r f run)) (after_read-IsValid c e h)
  Step-IsValid {e} (asks k r f run) h =
      let (c, found) = contains_storage-callee k e f r run in
      subst (IsValid n) (sym (contains_storage_state c e found k r f run))
        (after_read-IsValid c e h)
  Step-IsValid {e} (pays d v r f run) h = transfer-IsValid d v e f r run h
  Step-IsValid {e} (emits t d f run) h =
      let (db, cells, context) = deposit_event_keeps t d e f run in
      same_parts e f db cells (ap (λ (x : Context.ExecContext). x.callee) context) h
  Step-IsValid {e} (advances f run) h =
      let (db, info, context) = advance_block_keeps e f run in
      same_parts e f db (ap (λ (x : DebugInfo.DebugInfo). x.cells_per_account) info) context h
  Step-IsValid {e} (becomes c l) h = record {
    callee_length = λ d g. ground (arith, l, g);
    tracks = λ a k m. h.tracks a k m;
  }
  Step-IsValid {e} (called_by c) h = same_parts e _ refl refl refl h
  Step-IsValid {e} (funds a b) h = record {
    callee_length = λ d g. h.callee_length d g;
    tracks = λ d k l.
        ground
          (arith, h.tracks d k l, get_from_contract_storage-set_balance laws d a k b e.database);
  }
  Step-IsValid {e} (sends v) h = same_parts e _ refl refl refl h
  Step-IsValid {e} (knows c) h = same_parts e _ refl refl refl h
  Step-IsValid {e} (numbers b) h = same_parts e _ refl refl refl h
  Step-IsValid {e} (stamps t) h = same_parts e _ refl refl refl h
  Step-IsValid {e} (logs message) h = same_parts e _ refl refl refl h
  Step-IsValid {e} (registers x) h = same_parts e _ refl refl refl h
  Step-IsValid {e} (extends id i o r f run) h =
      let (db, info, context) = call_chain_extension_keeps id i o r e f run in
      same_parts e f db (ap (λ (x : DebugInfo.DebugInfo). x.cells_per_account) info)
        (ap (λ (x : Context.ExecContext). x.callee) context) h
  Step-IsValid {e} (ends b r f run) h =
      let (v, x, moved) = terminate-transfer b r e f run in transfer-IsValid b v e f x moved h
  Step-IsValid {e} resets h = record {
    callee_length = λ d g. absurd (ground (arith, g));
    tracks = new-Tracks;
  }

  -- In every state that calls of the engine other than `take_storage` reach from a new one, by accounts
  -- of `n` bytes, the record of used cells lists exactly the cells of those accounts that are there.
  pub Reach-IsValid : {e : Engine} → Reach n e → IsValid n e
  Reach-IsValid here = record {
    callee_length = λ c g. absurd (ground (arith, g));
    tracks = new-Tracks;
  }
  Reach-IsValid (next r st) = Step-IsValid st (Reach-IsValid r)
