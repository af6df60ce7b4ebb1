-- ===== src/Metadata/Validate/Reports.antt =====
-- What the check of crates/metadata/src/layout/validate.rs reports.
use mathlib.Core.List.{append_assoc}
use ink.Prelude.{
  ◌≡◌, ◌≢◌, ◌⊎◌, refl, sym, ap, subst, ◌∙◌, some, List, [], ◌∷◌, ◌++◌, Bytes, arith, inl, inr,
  Option-cases, Bool-cases, ◌==◌, nat_eq,
}
use ink.Prelude.HashMap
use ink.Prelude.HashMap.{HashMap}
use ink.Prelude.Result.{Result, ok, err}
use ink.Metadata.Layout.{LayoutKey, Layout}
use ink.Metadata.Validate.{Failure, validate}
use ink.Metadata.Validate.Occurrences.{Occurrence, occurrences, enter, verdict, validate-enter}

-- What an error of the walk reports: the first root key that was seen before, with the path at which
-- it was entered, and the path at which it was met again.
pub record Reports (os : List Occurrence) (p q : Bytes) : Type 0 where
  pub key : LayoutKey
  pub before : List Occurrence
  pub between : List Occurrence
  pub after : List Occurrence
  pub split : os ≡ before ++ ((key, p) ∷ between ++ ((key, q) ∷ after))

-- What the map holds was entered.
abbrev Holds : HashMap LayoutKey Bytes → List Occurrence → Type 0
Holds m done =
    (k : LayoutKey) (p : Bytes)
    → HashMap.get k m ≡ some p
    → (before : List Occurrence) × (between : List Occurrence) × (done
        ≡ before ++ ((k, p) ∷ between))

Holds-insert :
    (m : HashMap LayoutKey Bytes) (done : List Occurrence) (key : LayoutKey) (path : Bytes)
    → Holds m done
    → Holds (HashMap.insert key path m) (done ++ (key, path) ∷ [])
Holds-insert m done key path holds k p got = elim (Bool-cases (k == key)) [
  | inl e ↦ (done, [], ground (arith, HashMap.get-insert k key path m, nat_eq.decides k key))
  | inr e ↦
      let (before, between, split) = holds k p (ground (arith, HashMap.get-insert k key path m)) in
      (
        before,
        between ++ (key, path) ∷ [],
        ap (λ d. d ++ (key, path) ∷ []) split
            ∙ append_assoc before ((k, p) ∷ between) ((key, path) ∷ []),
      )
]

enter_err :
    (os done : List Occurrence) (m : HashMap LayoutKey Bytes) (p q : Bytes)
    → Holds m done
    → enter os m ≡ err (Failure.collision p q)
    → Reports (done ++ os) p q
unfolding enter
enter_err [] done m p q holds h = absurd (ground arith)
enter_err ((key, path) ∷ os) done m p q holds h = elim (Option-cases (HashMap.get key m)) [
  | inl e ↦
      subst (λ xs. Reports xs p q) (append_assoc done ((key, path) ∷ []) os)
        (enter_err os (done ++ (key, path) ∷ []) (HashMap.insert key path m) p q
          (Holds-insert m done key path holds) (ground arith))
  | inr (p', e) ↦
      let (before, between, split) = holds key p (ground arith) in
      record {
        key = key;
        before = before;
        between = between;
        after = os;
        split =
            ap (λ d. d ++ (key, path) ∷ os) split
            ∙ append_assoc before ((key, p) ∷ between) ((key, path) ∷ os)
            ∙ ap (λ r. before ++ ((key, p) ∷ between ++ ((key, r) ∷ os))) (ground arith);
      }
]

enter-ne-panicked :
    (os : List Occurrence) (m : HashMap LayoutKey Bytes) → enter os m ≢ err Failure.panicked
unfolding enter
enter-ne-panicked [] m h = ground arith
enter-ne-panicked ((key, path) ∷ os) m h =
    ground (arith, enter-ne-panicked os (HashMap.insert key path m))

verdict-err :
    (r : Result (HashMap LayoutKey Bytes) Failure) (e : Failure) → verdict r ≡ err e → r ≡ err e
verdict-err (ok m) e h = ground arith
verdict-err (err f) e h = ground arith

-- `validate` accepts, or fails with the paths of two root keys of the layout that are equal; it never
-- panics on its stack of names.
pub validate_cases :
    (l : Layout)
    → (validate l ≡ ok tt)
      ⊎ ((p : Bytes) × (q : Bytes) × (validate l ≡ err (Failure.collision p q))
          × Reports (occurrences l []) p q)
unfolding HashMap.get
validate_cases l = go (validate l) refl
  where
    entered : (e : Failure) → validate l ≡ err e → enter (occurrences l []) [] ≡ err e
    entered e h = verdict-err (enter (occurrences l []) []) e (sym (validate-enter l) ∙ h)

    go :
        (r : Result (Unit {0}) Failure)
        → validate l ≡ r
        → (validate l ≡ ok tt)
          ⊎ ((p : Bytes) × (q : Bytes) × (validate l ≡ err (Failure.collision p q))
              × Reports (occurrences l []) p q)
    go (ok tt) h = inl h
    go (err (Failure.collision p q)) h = inr (
      p,
      q,
      h,
      enter_err (occurrences l []) [] [] p q (λ k r got. absurd (ground arith)) (entered _ h),
    )
    go (err Failure.panicked) h = absurd (enter-ne-panicked (occurrences l []) [] (entered _ h))
