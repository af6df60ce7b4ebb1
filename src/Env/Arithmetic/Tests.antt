-- ===== src/Env/Arithmetic/Tests.antt =====
-- The saturating operations of crates/env/src/arithmetic.rs on `i8` and `u8`.
use ink.Prelude.{ℕ, ◌≡◌, refl, Option}
use ink.Env.Arithmetic.{
  ℤ, pos, negsuc, ◌*ℤ◌, power, in_range, clamp, saturating_mul, saturating_pow, saturating-clamp,
}

abbrev checked_pow_i8 : ℤ → ℕ → Option ℤ
checked_pow_i8 x exp = in_range 128 127 (power x exp)

mul_i8 : saturating_mul 128 127 (pos 2) (negsuc 127) ≡ negsuc 127
unfolding saturating_mul
mul_i8 = refl

mul_u8 : saturating_mul 0 255 (pos 16) (pos 16) ≡ pos 255
unfolding saturating_mul
mul_u8 = refl

pow_i8 : saturating_pow 128 127 checked_pow_i8 (negsuc 127) 2 ≡ pos 127
unfolding saturating_pow power
pow_i8 = refl

saturating-clamp_example :
    (saturating_mul 128 127 (negsuc 127) (pos 3) ≡ clamp 128 127 (negsuc 127 *ℤ pos 3))
    × (saturating_pow 128 127 checked_pow_i8 (negsuc 127) 3 ≡ clamp 128 127 (power (negsuc 127) 3))
saturating-clamp_example =
    saturating-clamp 128 127 checked_pow_i8 (λ x exp. refl) (negsuc 127) (pos 3) 3
