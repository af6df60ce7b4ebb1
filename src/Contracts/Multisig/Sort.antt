-- ===== src/Contracts/Multisig/Sort.antt =====
-- `sort_unstable` and `dedup` on accounts, as the constructor of the wallet uses them: afterwards each
-- account of the list is there once.
use ink.Prelude.{
  ◌+◌, ◌≤◌, ◌<◌, ◌≡◌, refl, Bool, true, false, Bool-cases, inl, inr, ◌||◌, ◌&&◌, List, [], ◌∷◌,
  Bytes, length, bytes_eq, nat_eq, nat_beq, ltb, ◌==◌, arith, if◌then◌else◌,
}
use ink.Contracts.Totals.{count, count-nil, count-cons}

-- The order of byte strings.
unfoldable pub bytes_leb : Bytes → Bytes → Bool
bytes_leb [] bs = true
bytes_leb (a ∷ as') [] = false
bytes_leb (a ∷ as') (b ∷ bs) = ltb a b || (nat_beq a b && bytes_leb as' bs)

bytes_leb_total : (as' bs : Bytes) → bytes_leb as' bs ≡ false → bytes_leb bs as' ≡ true
unfolding bytes_leb
bytes_leb_total [] bs h = cc
bytes_leb_total (a ∷ as') [] h = refl
bytes_leb_total (a ∷ as') (b ∷ bs) h = ground (arith, bytes_leb_total as' bs)

bytes_leb_trans :
    (as' bs cs : Bytes) → bytes_leb as' bs ≡ true → bytes_leb bs cs ≡ true → bytes_leb as' cs ≡ true
unfolding bytes_leb
bytes_leb_trans [] bs cs h k = refl
bytes_leb_trans (a ∷ as') [] cs h k = cc
bytes_leb_trans (a ∷ as') (b ∷ bs) [] h k = cc
bytes_leb_trans (a ∷ as') (b ∷ bs) (c ∷ cs) h k = ground (arith, bytes_leb_trans as' bs cs)

bytes_leb_antisym : (as' bs : Bytes) → bytes_leb as' bs ≡ true → bytes_leb bs as' ≡ true → as' ≡ bs
unfolding bytes_leb
bytes_leb_antisym [] [] h k = refl
bytes_leb_antisym [] (b ∷ bs) h k = cc
bytes_leb_antisym (a ∷ as') [] h k = cc
bytes_leb_antisym (a ∷ as') (b ∷ bs) h k = ground (arith, bytes_leb_antisym as' bs)

-- `sort_unstable`, whose result does not depend on the algorithm.
unfoldable pub insert_sorted : Bytes → List Bytes → List Bytes
insert_sorted x [] = x ∷ []
insert_sorted x (y ∷ ys) = if bytes_leb x y then x ∷ y ∷ ys else y ∷ insert_sorted x ys

unfoldable pub sort : List Bytes → List Bytes
unfolding insert_sorted
sort [] = []
sort (x ∷ xs) = insert_sorted x (sort xs)

-- `dedup` drops an element that is equal to the one next to it.
unfoldable pub dedup : List Bytes → List Bytes
dedup [] = []
dedup (x ∷ []) = x ∷ []
dedup (x ∷ y ∷ ys) = let rest = dedup (y ∷ ys) in if x == y then rest else x ∷ rest

abbrev AllAbove : Bytes → List Bytes → Type 0
AllAbove x [] = Unit
AllAbove x (y ∷ ys) = (bytes_leb x y ≡ true) × AllAbove x ys

abbrev IsSorted : List Bytes → Type 0
IsSorted [] = Unit
IsSorted (x ∷ xs) = AllAbove x xs × IsSorted xs

AllAbove-insert_sorted :
    (z x : Bytes) (ys : List Bytes)
    → bytes_leb z x ≡ true
    → AllAbove z ys
    → AllAbove z (insert_sorted x ys)
unfolding insert_sorted
AllAbove-insert_sorted z x [] h all = (h, tt)
AllAbove-insert_sorted z x (y ∷ ys) h all = elim (Bool-cases (bytes_leb x y)) [
  | inl e ↦ rw e (h, all)
  | inr e ↦ rw e (all.0, AllAbove-insert_sorted z x ys h all.1)
]

AllAbove-trans :
    (z y : Bytes) (ys : List Bytes) → bytes_leb z y ≡ true → AllAbove y ys → AllAbove z ys
AllAbove-trans z y [] h all = tt
AllAbove-trans z y (x ∷ ys) h all = (bytes_leb_trans z y x h all.0, AllAbove-trans z y ys h all.1)

insert_sorted-IsSorted : (x : Bytes) (ys : List Bytes) → IsSorted ys → IsSorted (insert_sorted x ys)
unfolding insert_sorted
insert_sorted-IsSorted x [] s = (tt, tt)
insert_sorted-IsSorted x (y ∷ ys) s = elim (Bool-cases (bytes_leb x y)) [
  | inl e ↦ rw e ((e, AllAbove-trans x y ys e s.0), s)
  | inr e ↦
      rw e
        (AllAbove-insert_sorted y x ys (bytes_leb_total x y e) s.0, insert_sorted-IsSorted x ys s.1)
]

sort-IsSorted : (xs : List Bytes) → IsSorted (sort xs)
unfolding sort
sort-IsSorted [] = tt
sort-IsSorted (x ∷ xs) = insert_sorted-IsSorted x (sort xs) (sort-IsSorted xs)

count-insert_sorted :
    (a x : Bytes) (ys : List Bytes)
    → count a (insert_sorted x ys) ≡ (if a == x then 1 else 0) + count a ys
unfolding insert_sorted
count-insert_sorted a x [] = count-cons a x []
count-insert_sorted a x (y ∷ ys) = elim (Bool-cases (bytes_leb x y)) [
  | inl e ↦ rw e (count-cons a x (y ∷ ys))
  | inr e ↦ rw e (
      omega
        (arith, count-cons a y (insert_sorted x ys), count-cons a y ys, count-insert_sorted a x ys))
]

count-sort : (a : Bytes) (xs : List Bytes) → count a (sort xs) ≡ count a xs
unfolding sort
count-sort a [] = refl
count-sort a (x ∷ xs) =
    omega (arith, count-insert_sorted a x (sort xs), count-sort a xs, count-cons a x xs)

AllAbove-count :
    (x y : Bytes) (ys : List Bytes) → AllAbove y ys → 0 < count x ys → bytes_leb y x ≡ true
AllAbove-count x y [] all there = absurd (omega (arith, count-nil x))
AllAbove-count x y (z ∷ zs) all there =
    ground (arith, count-cons x z zs, bytes_eq.decides x z, AllAbove-count x y zs all.1)

-- In a sorted list, what differs from the next element does not come again.
count-later :
    (x y : Bytes) (ys : List Bytes)
    → IsSorted (x ∷ y ∷ ys)
    → (x == y) ≡ false
    → count x (y ∷ ys) ≡ 0
count-later x y ys s other = ground (
  arith,
  count-cons x y ys,
  bytes_eq.decides x y,
  AllAbove-count x y ys s.1.0,
  bytes_leb_antisym x y s.0.0,
)

count-dedup :
    (a : Bytes) (xs : List Bytes)
    → IsSorted xs
    → count a (dedup xs) ≡ (if nat_beq (count a xs) 0 then 0 else 1)
unfolding dedup
count-dedup a [] s = ground (arith, count-nil a)
count-dedup a (x ∷ []) s = ground (arith, count-cons a x [], count-nil a)
count-dedup a (x ∷ y ∷ ys) s = ground (
  arith,
  count-cons a x (y ∷ ys),
  count-cons a y ys,
  count-cons a x (dedup (y ∷ ys)),
  bytes_eq.decides x y,
  bytes_eq.decides a x,
  bytes_eq.decides a y,
  count-later x y ys s,
  count-dedup a (y ∷ ys) s.1,
)

-- After both, each account of the list is there once.
pub count-dedup-sort :
    (a : Bytes) (xs : List Bytes)
    → count a (dedup (sort xs)) ≡ (if nat_beq (count a xs) 0 then 0 else 1)
count-dedup-sort a xs = ground (arith, count-dedup a (sort xs) (sort-IsSorted xs), count-sort a xs)

length-insert_sorted : (x : Bytes) (ys : List Bytes) → length (insert_sorted x ys) ≡ length ys + 1
unfolding insert_sorted
length-insert_sorted x [] = omega arith
length-insert_sorted x (y ∷ ys) = ground (arith, length-insert_sorted x ys)

length-sort : (xs : List Bytes) → length (sort xs) ≡ length xs
unfolding sort
length-sort [] = refl
length-sort (x ∷ xs) = omega (arith, length-insert_sorted x (sort xs), length-sort xs)

length-dedup : (xs : List Bytes) → length (dedup xs) ≤ length xs
unfolding dedup
length-dedup [] = omega arith
length-dedup (x ∷ []) = omega arith
length-dedup (x ∷ y ∷ ys) = ground (arith, length-dedup (y ∷ ys))

pub length-dedup-sort : (xs : List Bytes) → length (dedup (sort xs)) ≤ length xs
length-dedup-sort xs = omega (arith, length-dedup (sort xs), length-sort xs)
