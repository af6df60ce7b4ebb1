-- ===== src/Prelude/Result.antt =====
-- Rust's `Result`: a value, or an error.
use mathlib.Core.Logic.{◌⊎◌, inl, inr}
use mathlib.Core.Option.{Option, none, some}
use mathlib.Core.Bool.{Bool, true, false}
use mathlib.Core.Path.{◌≡◌, refl}

pub data Result {ℓ κ} (T : Type ℓ) (E : Type κ) : Type (ℓ ⊔ κ) where
  err : E → Result T E
  ok : T → Result T E

-- The operator `?`, which passes an error on.
abbrev pub ◌>>=◌ {ℓ κ μ} :
    {E : Type μ} {T : Type ℓ} {U : Type κ} → Result T E → (T → Result U E) → Result U E
err e >>= next = err e
ok value >>= next = next value

abbrev pub ◌>>◌ {κ μ} : {E : Type μ} {U : Type κ} → Result (Unit {0}) E → Result U E → Result U E
first >> second = first >>= λ _. second

infixl 5 ◌>>=◌ ◌>>◌
abbrev pub ok_or {ℓ κ} : {T : Type ℓ} {E : Type κ} → E → Option T → Result T E
ok_or e (some t) = ok t
ok_or e none = err e

-- `if test { return Err(e) }`
abbrev pub refuse_if {κ} : {E : Type κ} → Bool → E → Result (Unit {0}) E
refuse_if true e = err e
refuse_if false e = ok tt

-- A computation that succeeds had its first step succeed.
pub >>=-eq-ok {ℓ κ μ} :
    {E : Type μ} {T : Type ℓ} {U : Type κ} (m : Result T E) (next : T → Result U E) {u : U}
    → (m >>= next) ≡ ok u
    → (t : T) × (m ≡ ok t) × (next t ≡ ok u)
>>=-eq-ok (err e) next run = cc
>>=-eq-ok (ok t) next run = (t, refl, run)

pub Result-cases {ℓ κ} :
    {T : Type ℓ} {E : Type κ} (r : Result T E) → ((t : T) × (r ≡ ok t)) ⊎ ((e : E) × (r ≡ err e))
Result-cases (ok t) = inl (t, refl)
Result-cases (err e) = inr (e, refl)
