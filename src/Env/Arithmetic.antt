-- ===== src/Env/Arithmetic.antt =====
-- The saturating operations of crates/env/src/arithmetic.rs, on the integers of an interval that
-- contains 0: those of an unsigned or a signed type. `num_traits::checked_pow` is a parameter.
mod Tests
use ink.Prelude.{
  ℕ, zero, suc, ◌+◌, ◌*◌, ◌%◌, ◌≡◌, refl, ap, ◌∙◌, sym, Bool, true, false, not, ◌&&◌, Option, none,
  some, nat_beq, ltb, leb, if◌then◌else◌, arith, Bool-cases, inl, inr, ◌⊎◌,
}

pub data ℤ : Type 0 where
  pos negsuc : ℕ → ℤ

-- `- n`
abbrev pub neg : ℕ → ℤ
neg zero = pos 0
neg (suc n) = negsuc n

abbrev pub ◌*ℤ◌ : ℤ → ℤ → ℤ
pos a *ℤ pos b = pos (a * b)
pos a *ℤ negsuc b = neg (a * suc b)
negsuc a *ℤ pos b = neg (suc a * b)
negsuc a *ℤ negsuc b = pos (suc a * suc b)

infixl 60 ◌*ℤ◌
abbrev pub is_negative : ℤ → Bool
is_negative (pos a) = false
is_negative (negsuc a) = true

unfoldable pub power : ℤ → ℕ → ℤ
power x zero = pos 1
power x (suc n) = x *ℤ power x n

abbrev xor : Bool → Bool → Bool
xor true b = not b
xor false b = b

abbrev or_else : ℤ → Option ℤ → ℤ
or_else x none = x
or_else x (some y) = y

-- The integers from `- low` to `high`.
module _ (low high : ℕ) where
  abbrev pub fits : ℤ → Bool
  fits (pos a) = leb a high
  fits (negsuc a) = ltb a low

  abbrev pub min_value : ℤ
  min_value = neg low

  abbrev pub max_value : ℤ
  max_value = pos high

  abbrev pub in_range : ℤ → Option ℤ
  in_range x = if fits x then some x else none

  abbrev pub checked_mul : ℤ → ℤ → Option ℤ
  checked_mul x y = in_range (x *ℤ y)

  unfoldable pub saturating_mul : ℤ → ℤ → ℤ
  saturating_mul x y =
      or_else (if xor (is_negative x) (is_negative y) then min_value else max_value)
        (checked_mul x y)

  -- The nearest integer of the interval.
  abbrev pub clamp : ℤ → ℤ
  clamp (pos a) = if leb a high then pos a else max_value
  clamp (negsuc a) = if ltb a low then negsuc a else min_value

  -- An integer that is out of range, and whose sign is known, is replaced by the right bound.
  or_else-clamp :
      (x : ℤ) (negative : Bool)
      → (is_negative x ≡ negative) ⊎ (x ≡ pos 0)
      → or_else (if negative then min_value else max_value) (in_range x) ≡ clamp x
  or_else-clamp (pos a) negative sign = ground arith
  or_else-clamp (negsuc a) negative sign = ground arith

  neg-sign : (n : ℕ) → (is_negative (neg n) ≡ true) ⊎ (neg n ≡ pos 0)
  neg-sign zero = inr refl
  neg-sign (suc n) = inl refl

  saturating_mul-clamp : (x y : ℤ) → saturating_mul x y ≡ clamp (x *ℤ y)
  unfolding saturating_mul
  saturating_mul-clamp (pos a) (pos b) = or_else-clamp (pos (a * b)) false (inl refl)
  saturating_mul-clamp (pos a) (negsuc b) =
      or_else-clamp (neg (a * suc b)) true (neg-sign (a * suc b))
  saturating_mul-clamp (negsuc a) (pos b) =
      or_else-clamp (neg (suc a * b)) true (neg-sign (suc a * b))
  saturating_mul-clamp (negsuc a) (negsuc b) = or_else-clamp (pos (suc a * suc b)) false (inl refl)

  abbrev pub is_odd : ℕ → Bool
  is_odd exp = not (nat_beq (exp % 2) 0)

  is_odd-suc : (e : ℕ) → is_odd (suc e) ≡ not (is_odd e)
  is_odd-suc e = ground arith

  suc-times : (a n : ℕ) → suc a * suc n ≡ suc (n + a * suc n)
  suc-times a n = omega arith

  pos-times : (a : ℕ) (x : ℤ) → is_negative x ≡ false → is_negative (pos a *ℤ x) ≡ false
  pos-times a (pos b) h = refl
  pos-times a (negsuc b) h = cc

  power-negsuc :
      (a e : ℕ) → (n : ℕ) × (power (negsuc a) e ≡ (if is_odd e then negsuc n else pos (suc n)))
  unfolding power
  power-negsuc a zero = (0, refl)
  power-negsuc a (suc e) =
      let (n, before) = power-negsuc a e in
      elim (Bool-cases (is_odd e)) [
        | inl odd ↦
            (n + a * suc n, rw before (rw odd (rw (is_odd-suc e, odd) (ap pos (suc-times a n)))))
        | inr even ↦
            (n + a * suc n, rw before (rw even (rw (is_odd-suc e, even) (ap neg (suc-times a n)))))
      ]

  power-pos : (a e : ℕ) → is_negative (power (pos a) e) ≡ false
  unfolding power
  power-pos a zero = refl
  power-pos a (suc e) = pos-times a (power (pos a) e) (power-pos a e)

  sign : (x : ℤ) (e : ℕ) → is_negative (power x e) ≡ (is_negative x && is_odd e)
  sign (pos a) e = power-pos a e
  sign (negsuc a) e = let (n, is) = power-negsuc a e in ground (arith, is)

  module _ (checked_pow : ℤ → ℕ → Option ℤ) where
    unfoldable pub saturating_pow : ℤ → ℕ → ℤ
    saturating_pow x exp =
        or_else (if is_negative x && is_odd exp then min_value else max_value) (checked_pow x exp)

    -- The saturating product and power are the exact ones, or the bound of the type that is nearest
    -- to them; `checked_pow` gives the exact power if that is in range.
    pub saturating-clamp :
        ((x : ℤ) (exp : ℕ) → checked_pow x exp ≡ in_range (power x exp))
        → (x y : ℤ) (exp : ℕ)
        → (saturating_mul x y ≡ clamp (x *ℤ y)) × (saturating_pow x exp ≡ clamp (power x exp))
    unfolding saturating_pow
    saturating-clamp checked x y exp = (
      saturating_mul-clamp x y,
      rw (checked x exp)
          (or_else-clamp (power x exp) (is_negative x && is_odd exp) (inl (sign x exp))),
    )
