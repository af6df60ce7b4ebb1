-- ===== src/Metadata/Validate/Occurrences.antt =====
-- The check of crates/metadata/src/layout/validate.rs against a list of the root keys of a layout.
use ink.Prelude.{
  ◌≡◌, ◌↔◌, refl, sym, ap, ◌∙◌, none, some, List, [], ◌∷◌, ◌++◌, Bytes, flatten, nat_eq, arith,
}
use ink.Prelude.HashMap
use ink.Prelude.HashMap.{HashMap}
use ink.Prelude.Keys.{Keys, insert-Keys, empty-Keys}
use ink.Prelude.Distinct.{Distinct, Fresh, Fresh-nil_iff}
use ink.Prelude.Result.{Result, ok, err, ◌>>=◌}
use ink.Metadata.Layout.{
  LayoutKey, Layout, StructLayout, Fields, Variants, leaf, root, hash, array, structure,
  enumeration, struct_layout, no_fields, field, no_variants, variant,
}
use ink.Metadata.Validate.{
  ValidateLayout, Failure, push_name, without_last, pop_name, check_key, enum_prefix, field_prefix,
  recursive_validate, check_struct_layout, check_fields, check_variants, validate,
}

-- A root key and the path at which it stands.
abbrev pub Occurrence : Type 0
Occurrence = LayoutKey × Bytes

-- The root keys of a layout below the names `ns`, in the order of the walk.
unfoldable mutual
  pub occurrences : Layout → List Bytes → List Occurrence
  occurrences (leaf _) ns = []
  occurrences (root key ty layout) ns = (key, flatten ns) ∷ occurrences layout ns
  occurrences (hash offset strategy layout) ns = occurrences layout ns
  occurrences (array offset len layout) ns = occurrences layout ns
  occurrences (structure st) ns = of_struct st ns
  occurrences (enumeration name dispatch_key variants) ns =
      of_variants variants (ns ++ enum_prefix name ∷ [])

  of_struct : StructLayout → List Bytes → List Occurrence
  of_struct (struct_layout name fields) ns = of_fields fields (ns ++ name ∷ [])

  of_fields : Fields → List Bytes → List Occurrence
  of_fields no_fields ns = []
  of_fields (field name layout fields) ns =
      occurrences layout (ns ++ field_prefix name ∷ []) ++ of_fields fields ns

  of_variants : Variants → List Bytes → List Occurrence
  of_variants no_variants ns = []
  of_variants (variant discriminant st variants) ns = of_struct st ns ++ of_variants variants ns

-- The walk, without the layout.
unfoldable pub enter :
    List Occurrence → HashMap LayoutKey Bytes → Result (HashMap LayoutKey Bytes) Failure
enter [] m = ok m
enter ((key, path) ∷ os) m = elim (HashMap.get key m) [
  | some prev_path ↦ err (Failure.collision prev_path path)
  | none ↦ enter os (HashMap.insert key path m)
]

enter-append :
    (os ps : List Occurrence) (m : HashMap LayoutKey Bytes)
    → enter (os ++ ps) m ≡ (enter os m >>= λ m'. enter ps m')
unfolding enter
enter-append [] ps m = refl
enter-append ((key, path) ∷ os) ps m =
    ground (arith, enter-append os ps (HashMap.insert key path m))

-- A validator with names on its stack.
abbrev named : List Bytes → HashMap LayoutKey Bytes → ValidateLayout
named ns m = record { first_entry = m; name_stack = ns }

-- The validator after the walk has the same names.
abbrev walk : List Bytes → List Occurrence → HashMap LayoutKey Bytes → Result ValidateLayout Failure
walk ns os m = enter os m >>= λ m'. ok (named ns m')

without_last-append : (ns : List Bytes) (n : Bytes) → without_last (ns ++ n ∷ []) ≡ some ns
without_last-append [] n = refl
without_last-append (m ∷ ns) n = rw (without_last-append ns n)

pop_lem :
    (ns : List Bytes) (n : Bytes) (os : List Occurrence) (m : HashMap LayoutKey Bytes)
    → (walk (ns ++ n ∷ []) os m >>= pop_name) ≡ walk ns os m
unfolding pop_name
pop_lem ns n os m = go (enter os m)
  where
    go :
        (r : Result (HashMap LayoutKey Bytes) Failure)
        → (r >>= (λ m'. ok (named (ns ++ n ∷ []) m')) >>= pop_name) ≡ (r >>= λ m'. ok (named ns m'))
    go (ok m') = ground (arith, without_last-append ns n)
    go (err e) = refl

-- A walk, and then one that starts with the same names.
walk-append :
    (ns : List Bytes) (os ps : List Occurrence) (m : HashMap LayoutKey Bytes)
    (k : ValidateLayout → Result ValidateLayout Failure)
    → ((m' : HashMap LayoutKey Bytes) → k (named ns m') ≡ walk ns ps m')
    → (walk ns os m >>= k) ≡ walk ns (os ++ ps) m
walk-append ns os ps m k next =
    go (enter os m) ∙ sym (ap (λ r. r >>= λ m'. ok (named ns m')) (enter-append os ps m))
  where
    go :
        (r : Result (HashMap LayoutKey Bytes) Failure)
        → (r >>= (λ m'. ok (named ns m')) >>= k)
          ≡ (r >>= (λ m'. enter ps m') >>= λ m'. ok (named ns m'))
    go (ok m') = next m'
    go (err e) = refl

-- The same, with a name taken off the stack between them.
walk-pop-append :
    (ns : List Bytes) (n : Bytes) (os ps : List Occurrence) (m : HashMap LayoutKey Bytes)
    (k : ValidateLayout → Result ValidateLayout Failure)
    → ((m' : HashMap LayoutKey Bytes) → k (named ns m') ≡ walk ns ps m')
    → (walk (ns ++ n ∷ []) os m >>= λ v. pop_name v >>= k) ≡ walk ns (os ++ ps) m
walk-pop-append ns n os ps m k next =
    go (walk (ns ++ n ∷ []) os m)
    ∙ ap (λ r. r >>= k) (pop_lem ns n os m)
    ∙ walk-append ns os ps m k next
  where
    go :
        (r : Result ValidateLayout Failure) → (r >>= λ v. pop_name v >>= k) ≡ (r >>= pop_name >>= k)
    go (ok v) = refl
    go (err e) = refl

check_key_lem :
    (ns : List Bytes) (key : LayoutKey) (m : HashMap LayoutKey Bytes)
    → check_key key (named ns m) ≡ walk ns ((key, flatten ns) ∷ []) m
unfolding check_key enter
check_key_lem ns key m = ground arith

mutual
  unfolding recursive_validate occurrences enter push_name

  recursive_validate_lem :
      (l : Layout) (ns : List Bytes) (m : HashMap LayoutKey Bytes)
      → recursive_validate l (named ns m) ≡ walk ns (occurrences l ns) m
  recursive_validate_lem (leaf _) ns m = refl
  recursive_validate_lem (root key ty layout) ns m =
      ap (λ r. r >>= recursive_validate layout) (check_key_lem ns key m)
      ∙ walk-append ns ((key, flatten ns) ∷ []) (occurrences layout ns) m
          (recursive_validate layout) (recursive_validate_lem layout ns)
  recursive_validate_lem (hash offset strategy layout) ns m = recursive_validate_lem layout ns m
  recursive_validate_lem (array offset len layout) ns m = recursive_validate_lem layout ns m
  recursive_validate_lem (structure st) ns m = check_struct_layout_lem st ns m
  recursive_validate_lem (enumeration name dispatch_key variants) ns m =
      ap (λ r. r >>= pop_name) (check_variants_lem variants (ns ++ enum_prefix name ∷ []) m)
      ∙ pop_lem ns (enum_prefix name) (of_variants variants (ns ++ enum_prefix name ∷ [])) m

  check_struct_layout_lem :
      (st : StructLayout) (ns : List Bytes) (m : HashMap LayoutKey Bytes)
      → check_struct_layout st (named ns m) ≡ walk ns (of_struct st ns) m
  check_struct_layout_lem (struct_layout name fields) ns m =
      ap (λ r. r >>= pop_name) (check_fields_lem fields (ns ++ name ∷ []) m)
      ∙ pop_lem ns name (of_fields fields (ns ++ name ∷ [])) m

  check_fields_lem :
      (fields : Fields) (ns : List Bytes) (m : HashMap LayoutKey Bytes)
      → check_fields fields (named ns m) ≡ walk ns (of_fields fields ns) m
  check_fields_lem no_fields ns m = refl
  check_fields_lem (field name layout fields) ns m =
      ap (λ r. r >>= λ v. pop_name v >>= check_fields fields)
        (recursive_validate_lem layout (ns ++ field_prefix name ∷ []) m)
      ∙ walk-pop-append ns (field_prefix name) (occurrences layout (ns ++ field_prefix name ∷ []))
          (of_fields fields ns) m (check_fields fields) (check_fields_lem fields ns)

  check_variants_lem :
      (variants : Variants) (ns : List Bytes) (m : HashMap LayoutKey Bytes)
      → check_variants variants (named ns m) ≡ walk ns (of_variants variants ns) m
  check_variants_lem no_variants ns m = refl
  check_variants_lem (variant discriminant st variants) ns m =
      ap (λ r. r >>= check_variants variants) (check_struct_layout_lem st ns m)
      ∙ walk-append ns (of_struct st ns) (of_variants variants ns) m (check_variants variants)
          (check_variants_lem variants ns)

abbrev pub verdict : {A : Type 0} → Result A Failure → Result (Unit {0}) Failure
verdict r = r >>= λ _. ok tt

-- `validate` enters the root keys of the layout with their paths, in order, and never panics.
pub validate-enter : (l : Layout) → validate l ≡ verdict (enter (occurrences l []) [])
unfolding validate
validate-enter l = ap verdict (recursive_validate_lem l [] []) ∙ go (enter (occurrences l []) [])
  where
    go :
        (r : Result (HashMap LayoutKey Bytes) Failure)
        → verdict (r >>= λ m. ok (named [] m)) ≡ verdict r
    go (ok m) = refl
    go (err e) = refl

abbrev pub keys : List Occurrence → List LayoutKey
keys [] = []
keys ((key, path) ∷ os) = key ∷ keys os

enter-Fresh-iff :
    (os : List Occurrence) (m : HashMap LayoutKey Bytes) (ks : List LayoutKey)
    → Keys m ks
    → (verdict (enter os m) ≡ ok tt) ↔ Fresh ks (keys os)
unfolding enter
enter-Fresh-iff [] m ks known = ((λ _. tt), (λ _. refl))
enter-Fresh-iff ((key, path) ∷ os) m ks known = ground (
  arith,
  known key,
  enter-Fresh-iff os (HashMap.insert key path m) (key ∷ ks) (insert-Keys m ks key path known),
)

-- `validate` accepts a layout exactly when its root keys are pairwise different.
pub validate_iff : (l : Layout) → (validate l ≡ ok tt) ↔ Distinct (keys (occurrences l []))
validate_iff l =
    let (to, from) = enter-Fresh-iff (occurrences l []) [] [] empty-Keys in
    let (split, join) = Fresh-nil_iff (keys (occurrences l [])) in
    ((λ h. split (to (sym (validate-enter l) ∙ h))), (λ d. validate-enter l ∙ from (join d)))
