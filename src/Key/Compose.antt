-- ===== src/Key/Compose.antt =====
-- How keys are composed, crates/primitives/src/key.rs.
use Prim.Native.Nat.{bit_xor, bit_xor-bitwise, digits, differ}
use ink.Prelude.{
  ℕ, ◌≡◌, ◌≢◌, refl, sym, ap₂, ◌∙◌, ◌≤◌, ◌+◌, ◌*◌, ◌/◌, ◌%◌, [], ◌∷◌, Bytes, join, arith,
}
use ink.Prelude.Result.{ok}
use ink.Prelude.Separated.{separator, NoColon, join-injective}
use ink.Key.{Key, key_parts, concat, from_bytes, compute_key}

differ_comm : (a b : ℕ) → differ a b ≡ differ b a
differ_comm ℕ.zero ℕ.zero = refl
differ_comm ℕ.zero (ℕ.suc b) = refl
differ_comm (ℕ.suc a) ℕ.zero = refl
differ_comm (ℕ.suc a) (ℕ.suc b) = differ_comm a b

differ_zero : (a : ℕ) → differ a 0 ≡ a
differ_zero ℕ.zero = refl
differ_zero (ℕ.suc a) = refl

differ_self : (a : ℕ) → differ a a ≡ 0
differ_self ℕ.zero = refl
differ_self (ℕ.suc a) = differ_self a

abbrev xor_digits : ℕ → ℕ → ℕ → ℕ
xor_digits n a b = digits (λ c. c) differ n a b

xor_digits_zero : (n a : ℕ) → a ≤ n → xor_digits n a 0 ≡ a
xor_digits_zero ℕ.zero a h = ground arith
xor_digits_zero (ℕ.suc n) ℕ.zero h = refl
xor_digits_zero (ℕ.suc n) (ℕ.suc a) h =
    ground (arith, xor_digits_zero n (ℕ.suc a / 2), differ_zero (ℕ.suc a % 2))

zero_xor_digits : (n b : ℕ) → xor_digits n 0 b ≡ b
zero_xor_digits ℕ.zero b = refl
zero_xor_digits (ℕ.suc n) b = refl

xor_digits_comm : (n m a b : ℕ) → a ≤ n → b ≤ m → xor_digits n a b ≡ xor_digits m b a
xor_digits_comm n m ℕ.zero b hn hm = zero_xor_digits n b ∙ sym (xor_digits_zero m b hm)
xor_digits_comm n m (ℕ.suc a) ℕ.zero hn hm =
    xor_digits_zero n (ℕ.suc a) hn ∙ sym (zero_xor_digits m (ℕ.suc a))
xor_digits_comm ℕ.zero m (ℕ.suc a) (ℕ.suc b) hn hm = absurd (ground arith)
xor_digits_comm (ℕ.suc n) ℕ.zero (ℕ.suc a) (ℕ.suc b) hn hm = absurd (ground arith)
xor_digits_comm (ℕ.suc n) (ℕ.suc m) (ℕ.suc a) (ℕ.suc b) hn hm =
    let later = xor_digits_comm n m (ℕ.suc a / 2) (ℕ.suc b / 2) (omega arith) (omega arith) in
    ap₂ (λ x y. x * 2 + y) later (differ_comm (ℕ.suc a % 2) (ℕ.suc b % 2))

xor_digits_self : (n a : ℕ) → a ≤ n → xor_digits n a a ≡ 0
xor_digits_self ℕ.zero a h = ground arith
xor_digits_self (ℕ.suc n) ℕ.zero h = refl
xor_digits_self (ℕ.suc n) (ℕ.suc a) h =
    ground (arith, xor_digits_self n (ℕ.suc a / 2), differ_self (ℕ.suc a % 2))

bit_xor_comm : (a b : ℕ) → bit_xor a b ≡ bit_xor b a
bit_xor_comm a b =
    bit_xor-bitwise a b
    ∙ xor_digits_comm a b a b (omega arith) (omega arith)
    ∙ sym (bit_xor-bitwise b a)

bit_xor_self : (a : ℕ) → bit_xor a a ≡ 0
bit_xor_self a = bit_xor-bitwise a a ∙ xor_digits_self a a (omega arith)

-- The text that `compute_key` hashes.
abbrev pub composed_key : Bytes → Bytes → Bytes → Bytes
composed_key s v f = join separator (key_parts s v f)

key_parts-join :
    (s v f t w g : Bytes)
    → NoColon (key_parts s v f)
    → NoColon (key_parts t w g)
    → composed_key s v f ≡ composed_key t w g
    → key_parts s v f ≡ key_parts t w g
key_parts-join s [] f t [] g hp hq e = join-injective s t _ _ hp hq e
key_parts-join s [] f t (y ∷ w) g hp hq e = join-injective s t _ _ hp hq e
key_parts-join s (x ∷ v) f t [] g hp hq e = join-injective s t _ _ hp hq e
key_parts-join s (x ∷ v) f t (y ∷ w) g hp hq e = join-injective s t _ _ hp hq e

parts-eq : (s v f t w g : Bytes) → key_parts s v f ≡ key_parts t w g → (s ≡ t) × (v ≡ w) × (f ≡ g)
parts-eq s [] f t [] g e = ground arith
parts-eq s [] f t (y ∷ w) g e = ground arith
parts-eq s (x ∷ v) f t [] g e = ground arith
parts-eq s (x ∷ v) f t (y ∷ w) g e = ground arith

module _ (xxh32 : Bytes → Key) where
  -- The order of the two keys does not matter, and 0 is neutral.
  pub concat_comm :
      (left right : Key)
      → (concat xxh32 left right ≡ concat xxh32 right left) × (concat xxh32 0 right ≡ right)
  unfolding concat
  concat_comm left right = (ground (arith, bit_xor_comm left right), ground arith)

  -- Every key other than 0 that is concatenated with itself gives the same key.
  pub concat_self : (k j : Key) → k ≢ 0 → j ≢ 0 → concat xxh32 k k ≡ concat xxh32 j j
  unfolding concat
  concat_self k j hk hj = ground (arith, bit_xor_self k, bit_xor_self j)

  compute_key-ok :
      (s v f : Bytes) (k : Key) → compute_key xxh32 s v f ≡ ok k → xxh32 (composed_key s v f) ≡ k
  unfolding compute_key from_bytes
  compute_key-ok [] v f k h = absurd (ground arith)
  compute_key-ok (a ∷ s) [] f k h = ground arith
  compute_key-ok (a ∷ s) (x ∷ v) f k h = ground arith

  -- Where the hash of two composed keys is the same only for the same text, `compute_key` gives the
  -- same key to two fields only if struct, variant and field are the same. The names have no colons.
  pub compute_key-injective :
      (s v f t w g : Bytes)
      → NoColon (key_parts s v f)
      → NoColon (key_parts t w g)
      → (xxh32 (composed_key s v f) ≡ xxh32 (composed_key t w g)
          → composed_key s v f ≡ composed_key t w g)
      → (k : Key) → compute_key xxh32 s v f ≡ ok k
      → compute_key xxh32 t w g ≡ ok k
      → (s ≡ t) × (v ≡ w) × (f ≡ g)
  compute_key-injective s v f t w g hp hq no_collision k hs ht = parts-eq s v f t w g (
      key_parts-join s v f t w g hp hq
        (no_collision (compute_key-ok s v f k hs ∙ sym (compute_key-ok t w g k ht))))
