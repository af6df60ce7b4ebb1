-- ===== src/Codegen/Dispatch/Checks.antt =====
-- The two checks of a payment, crates/ink/codegen/src/generator/dispatch.rs.
use ink.Prelude.{
  ℕ, ◌≡◌, refl, sym, ◌⊎◌, inl, inr, true, not, ◌&&◌, Option, some, none, List, [], ◌∷◌, Bytes, ret,
  arith, Bool-cases, bytes_eq,
}
use ink.Prelude.Result.{ok}
use ink.Engine.Host.{Host}
use ink.Engine.State.{Engine}
use ink.Env.OnChain.{transferred_value}
use ink.Codegen.Dispatch.{
  Dispatchable, Decoded, any_accepts_payment, query_wildcard, select, decode_match, decode_wildcard,
  decode_arm, decode_dispatch,
}
use ink.Codegen.Dispatch.Execute.{deny_payment_if}

module _ {F Args : Type 0} where
  select-payable :
      (key : Bytes) (n m : ℕ) (ds : List (Dispatchable F Args)) (d : Dispatchable F Args)
      → select key n ds ≡ some (m, d)
      → d.payable ≡ true
      → any_accepts_payment ds ≡ true
  unfolding select any_accepts_payment
  select-payable key n m [] d h p = cc
  select-payable key n m (c ∷ ds) d h p = ground (arith, select-payable key (ℕ.suc n) m ds d)

  query_wildcard-payable :
      (n m : ℕ) (ds : List (Dispatchable F Args)) (d : Dispatchable F Args)
      → query_wildcard n ds ≡ some (m, d)
      → d.payable ≡ true
      → any_accepts_payment ds ≡ true
  unfolding query_wildcard any_accepts_payment
  query_wildcard-payable n m [] d h p = cc
  query_wildcard-payable n m (c ∷ ds) d h p =
      ground (arith, query_wildcard-payable (ℕ.suc n) m ds d)

  decode_arm-info :
      (n : ℕ) (c : Dispatchable F Args) (rest : Bytes) (d : Decoded F Args)
      → decode_arm n c rest ≡ ok d
      → d.info ≡ c
  unfolding decode_arm
  decode_arm-info n c rest d h = ground arith

  decode_wildcard-payable :
      (ds : List (Dispatchable F Args)) (found : Option (ℕ × Dispatchable F Args)) (rest : Bytes)
      (d : Decoded F Args)
      → found ≡ query_wildcard 0 ds
      → decode_wildcard found rest ≡ ok d
      → d.info.payable ≡ true
      → any_accepts_payment ds ≡ true
  decode_wildcard-payable ds none rest d e h p = cc
  decode_wildcard-payable ds (some (n, c)) rest d e h p =
      query_wildcard-payable 0 n ds c (sym e) (rw (decode_arm-info n c rest d h) at p)

  decode_match-payable :
      (key : Bytes) (ds : List (Dispatchable F Args)) (found : Option (ℕ × Dispatchable F Args))
      (rest : Bytes) (d : Decoded F Args)
      → found ≡ select key 0 ds
      → decode_match ds found rest ≡ ok d
      → d.info.payable ≡ true
      → any_accepts_payment ds ≡ true
  decode_match-payable key ds (some (n, c)) rest d e h p =
      select-payable key 0 n ds c (sym e) (rw (decode_arm-info n c rest d h) at p)
  decode_match-payable key ds none rest d e h p =
      decode_wildcard-payable ds (query_wildcard 0 ds) rest d refl h p

  -- What is decoded is one of the callables.
  decode_dispatch-payable :
      (ds : List (Dispatchable F Args)) (input : Bytes) (d : Decoded F Args)
      → decode_dispatch ds input ≡ ok d
      → d.info.payable ≡ true
      → any_accepts_payment ds ≡ true
  unfolding decode_dispatch
  decode_dispatch-payable ds (a ∷ b ∷ c ∷ e ∷ rest) d h p =
      let key = a ∷ b ∷ c ∷ e ∷ [] in decode_match-payable key ds (select key 0 ds) rest d refl h p
  decode_dispatch-payable ds (a ∷ b ∷ c ∷ []) d h p = cc
  decode_dispatch-payable ds (a ∷ b ∷ []) d h p = cc
  decode_dispatch-payable ds (a ∷ []) d h p = cc
  decode_dispatch-payable ds [] d h p = cc

  -- Whether the payment is accepted, as the two tests have it.
  abbrev pub Accepts : ⦃host : Host⦄ → Dispatchable F Args → Engine → Type 0
  Accepts d e = (d.payable ≡ true) ⊎ (transferred_value e ≡ ret 0)

module _ ⦃host : Host⦄ where
  deny_payment_if-Accepts :
      {F Args : Type 0} (d : Dispatchable F Args) (e : Engine)
      → Accepts d e
      → deny_payment_if (not d.payable) e ≡ ret (ok tt)
  unfolding deny_payment_if
  deny_payment_if-Accepts d e (inl p) = rw p refl
  deny_payment_if-Accepts d e (inr z) = elim (Bool-cases d.payable) [
    | inl p ↦ rw p refl
    | inr q ↦ rw (q, z) refl
  ]

  module _ {F Args : Type 0} (ds : List (Dispatchable F Args)) (input : Bytes) (d : Decoded F Args)
      (decoded : decode_dispatch ds input ≡ ok d) (e : Engine) (accepted : Accepts d.info e) where
    -- Neither the check before the decoding nor the one behind it denies the payment.
    pub first_check : deny_payment_if (not (any_accepts_payment ds)) e ≡ ret (ok tt)
    unfolding deny_payment_if
    first_check = elim (Bool-cases (any_accepts_payment ds)) [
      | inl a ↦ rw a refl
      | inr n ↦ elim accepted [
        | inl p ↦ absurd (ground (arith, decode_dispatch-payable ds input d decoded p))
        | inr z ↦ rw (n, z) refl
      ]
    ]

    pub second_check :
        deny_payment_if (any_accepts_payment ds && not d.info.payable) e ≡ ret (ok tt)
    unfolding deny_payment_if
    second_check = elim (Bool-cases (any_accepts_payment ds)) [
      | inl a ↦ rw a (deny_payment_if-Accepts d.info e accepted)
      | inr n ↦ rw n refl
    ]
