-- ===== src/Prelude/Distinct.antt =====
-- Lists without repetition, said directly and as a loop that remembers what it has seen says it.
use mathlib.Core.Path.{◌≡◌, refl, sym}
use mathlib.Core.Logic.{◌≢◌, ◌↔◌}
use mathlib.Core.List.{List, [], ◌∷◌, ◌++◌}

module _ {A : Type 0} where
  abbrev pub NotIn : A → List A → Type 0
  NotIn a [] = Unit
  NotIn a (b ∷ bs) = (a ≢ b) × NotIn a bs

  abbrev pub Distinct : List A → Type 0
  Distinct [] = Unit
  Distinct (a ∷ as') = NotIn a as' × Distinct as'

  -- Every element is new, with those of `seen` and those before it.
  abbrev pub Fresh : List A → List A → Type 0
  Fresh seen [] = Unit
  Fresh seen (a ∷ as') = NotIn a seen × Fresh (a ∷ seen) as'

  -- What has been seen at the end.
  abbrev pub push : List A → List A → List A
  push [] seen = seen
  push (a ∷ as') seen = push as' (a ∷ seen)

  abbrev Apart : List A → List A → Type 0
  Apart seen [] = Unit
  Apart seen (a ∷ as') = NotIn a seen × Apart seen as'

  Apart-cons_iff :
      (a : A) (seen as' : List A) → Apart (a ∷ seen) as' ↔ (NotIn a as' × Apart seen as')
  Apart-cons_iff a seen [] = ((λ _. (tt, tt)), (λ _. tt))
  Apart-cons_iff a seen (b ∷ bs) =
      let (to, from) = Apart-cons_iff a seen bs in
      (
        (λ h. (((λ e. h.0.0 (sym e)), (to h.1).0), (h.0.1, (to h.1).1))),
        (λ h. (((λ e. h.0.0 (sym e)), h.1.0), from (h.0.1, h.1.1))),
      )

  pub Fresh-iff : (seen as' : List A) → Fresh seen as' ↔ (Distinct as' × Apart seen as')
  Fresh-iff seen [] = ((λ _. (tt, tt)), (λ _. tt))
  Fresh-iff seen (a ∷ as') =
      let (to, from) = Fresh-iff (a ∷ seen) as' in
      let (split, join) = Apart-cons_iff a seen as' in
      (
        (λ h. let d = to h.1 in let p = split d.1 in ((p.0, d.0), (h.0, p.1))),
        (λ h. (h.1.0, from (h.0.1, join (h.0.0, h.1.1)))),
      )

  Apart-nil : (as' : List A) → Apart [] as'
  Apart-nil [] = tt
  Apart-nil (a ∷ as') = (tt, Apart-nil as')

  pub Fresh-nil_iff : (as' : List A) → Fresh [] as' ↔ Distinct as'
  Fresh-nil_iff as' =
      ((λ h. ((Fresh-iff [] as').0 h).0), (λ h. (Fresh-iff [] as').1 (h, Apart-nil as')))

  pub Fresh-append_iff :
      (seen xs ys : List A) → Fresh seen (xs ++ ys) ↔ (Fresh seen xs × Fresh (push xs seen) ys)
  Fresh-append_iff seen [] ys = ((λ h. (tt, h)), (λ h. h.1))
  Fresh-append_iff seen (x ∷ xs) ys =
      let (to, from) = Fresh-append_iff (x ∷ seen) xs ys in
      ((λ h. let r = to h.1 in ((h.0, r.0), r.1)), (λ h. (h.0.0, from (h.0.1, h.1))))

  pub push-append : (xs ys seen : List A) → push (xs ++ ys) seen ≡ push ys (push xs seen)
  push-append [] ys seen = refl
  push-append (x ∷ xs) ys seen = push-append xs ys (x ∷ seen)

  -- What has been seen does not come again.
  pub Fresh-cons_NotIn : (a : A) (seen as' : List A) → Fresh (a ∷ seen) as' → NotIn a as'
  Fresh-cons_NotIn a seen as' h =
      ((Apart-cons_iff a seen as').0 ((Fresh-iff (a ∷ seen) as').0 h).1).0
