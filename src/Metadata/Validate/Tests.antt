-- ===== src/Metadata/Validate/Tests.antt =====
-- Layouts of the tests of crates/metadata/src/layout/validate.rs.
use ink.Prelude.{◌≡◌, ◌↔◌, ◌⊎◌, refl, [], ◌∷◌, Bytes, nat_eq}
use ink.Prelude.HashMap
use ink.Prelude.Distinct.{Distinct}
use ink.Prelude.Result.{ok, err}
use ink.Metadata.Layout.{Layout, leaf, root, structure, struct_layout, field, no_fields}
use ink.Metadata.Validate.{Failure, validate, recursive_validate, check_key, push_name, pop_name}
use ink.Metadata.Validate.Occurrences.{occurrences, keys, validate_iff}
use ink.Metadata.Validate.Reports.{Reports, validate_cases}

abbrev number : Layout
number = leaf (record { key = 2; ty = 0 })

-- Root(0) -> Contract { a: Root(1), b: Root(0) }
abbrev colliding : Layout
colliding = root 0 0 (
    structure (
      struct_layout (b'C' ∷ [])
        (field (b'a' ∷ []) (root 1 0 number) (field (b'b' ∷ []) (root 0 0 number) no_fields))))

-- The paths are "" and "C.b:".
colliding_paths : validate colliding ≡ err (Failure.collision [] (b'C' ∷ b'.' ∷ b'b' ∷ b':' ∷ []))
unfolding validate recursive_validate check_key push_name pop_name HashMap.get HashMap.insert
colliding_paths = refl

validate_iff_example : (validate colliding ≡ ok tt) ↔ Distinct (keys (occurrences colliding []))
validate_iff_example = validate_iff colliding

validate_cases_example :
    (validate colliding ≡ ok tt)
    ⊎ ((p : Bytes) × (q : Bytes) × (validate colliding ≡ err (Failure.collision p q))
        × Reports (occurrences colliding []) p q)
validate_cases_example = validate_cases colliding
