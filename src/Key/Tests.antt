-- ===== src/Key/Tests.antt =====
-- Keys of the tests of crates/primitives/src/key.rs, with a hash that adds up the bytes.
use ink.Prelude.{◌+◌, ◌≡◌, refl, [], ◌∷◌, Bytes, arith}
use ink.Prelude.Result.{ok, err}
use ink.Key.{Key, Error, from_bytes, compute_key}
use ink.Key.Compose.{compute_key-injective}

abbrev sum : Bytes → Key
sum [] = 0
sum (b ∷ bs) = b + sum bs

abbrev contract : Bytes
contract = b'C' ∷ []

abbrev balances : Bytes
balances = b'b' ∷ []

struct_name_is_empty : compute_key sum [] (b'V' ∷ []) balances ≡ err Error.struct_name_is_empty
unfolding compute_key
struct_name_is_empty = refl

field_name_is_empty : compute_key sum contract (b'V' ∷ []) [] ≡ err Error.field_name_is_empty
unfolding compute_key
field_name_is_empty = refl

-- The key of `C::b`
balances_key : compute_key sum contract [] balances ≡ ok 281
unfolding compute_key from_bytes
balances_key = refl

abbrev no_name : Bytes
no_name = []

compute_key-injective_example : (contract ≡ contract) × (no_name ≡ no_name) × (balances ≡ balances)
compute_key-injective_example =
    compute_key-injective sum contract no_name balances contract no_name balances (omega arith)
      (omega arith) (λ e. refl) 281 balances_key balances_key
