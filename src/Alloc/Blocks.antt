-- ===== src/Alloc/Blocks.antt =====
-- Sequences of calls of `alloc`.
use ink.Prelude.{
  ℕ, ◌+◌, ◌*◌, ◌≤◌, ◌≡◌, refl, ap, Option, none, some, List, [], ◌∷◌, Outcome, ret, ◌>>=◌,
  Outcome-cases, inl, inr, arith,
}
use ink.Alloc.{Layout, padded_size, Target, InnerAlloc, State, alloc, page_size}
use ink.Alloc.Bounds.{IsValid, alloc-Fits, alloc-none, alloc-ne-panic}

-- A block that was handed out: where it starts, and its size.
abbrev pub Block : Type 0
Block = ℕ × ℕ

abbrev pub keep : Option ℕ → ℕ → List Block → List Block
keep none size bs = bs
keep (some start) size bs = (start, size) ∷ bs

-- The blocks that a sequence of requests gets, the failed requests skipped.
pub serve : Target → List Layout → State → Outcome (List Block × State)
serve t [] s = ret ([], s)
serve t (l ∷ ls) s = do
  r ← alloc t l s
  rest ← serve t ls r.1
  ret (keep r.0 (padded_size l) rest.0, rest.1)

-- The blocks lie one behind the other between the two addresses.
abbrev pub InOrder : ℕ → List Block → ℕ → Type 0
InOrder lo [] hi = lo ≤ hi
InOrder lo ((start, size) ∷ bs) hi = (lo ≤ start) × InOrder (start + size) bs hi

InOrder-le : (lo lo' hi : ℕ) (bs : List Block) → lo ≤ lo' → InOrder lo' bs hi → InOrder lo bs hi
InOrder-le lo lo' hi [] h o = omega arith
InOrder-le lo lo' hi ((start, size) ∷ bs) h o = (omega arith, o.1)

-- One request keeps the state valid, and its block stands before those of the later requests.
keep-InOrder :
    (r : Option ℕ) (l : Layout) (s t : State) (bs : List Block) (hi : ℕ)
    → IsValid s
    → alloc Target.wasm32 l s ≡ ret (r, t)
    → InOrder t.inner.next bs hi
    → InOrder s.inner.next (keep r (padded_size l) bs) hi
keep-InOrder none l s t bs hi v e o =
    let (same, _) = alloc-none l s t v e in
    let same_next = ap (λ (a : InnerAlloc). a.next) same in
    InOrder-le s.inner.next t.inner.next hi bs (omega (arith, same_next)) o
keep-InOrder (some p) l s t bs hi v e o =
    let (below, ends, w) = alloc-Fits l s t p v e in
    (below, InOrder-le (p + padded_size l) t.inner.next hi bs (omega (arith, ends)) o)

alloc-IsValid :
    (r : Option ℕ) (l : Layout) (s t : State)
    → IsValid s
    → alloc Target.wasm32 l s ≡ ret (r, t)
    → IsValid t
alloc-IsValid none l s t v e = (alloc-none l s t v e).1
alloc-IsValid (some p) l s t v e = (alloc-Fits l s t p v e).2

-- The outcome of a sequence that goes well: no panic, blocks in order, a valid state.
abbrev pub Served : List Layout → State → Type 0
Served ls s =
    (bs : List Block) × (t : State) × (serve Target.wasm32 ls s ≡ ret (bs, t))
    × IsValid t
    × InOrder s.inner.next bs t.inner.next

pub serve-InOrder : (ls : List Layout) (s : State) → IsValid s → Served ls s
unfolding serve
serve-InOrder [] s v = ([], s, refl, v, omega arith)
serve-InOrder (l ∷ ls) s v = elim (Outcome-cases (alloc Target.wasm32 l s)) [
  | inl e ↦ absurd (alloc-ne-panic l s e)
  | inr ((r, s'), e) ↦
      let (bs, t, run, w, o) = serve-InOrder ls s' (alloc-IsValid r l s s' v e) in
      (keep r (padded_size l) bs, t, rw (e, run), w, keep-InOrder r l s s' bs t.inner.next v e o)
]

-- No two blocks overlap: each later one starts at or behind the end of an earlier one.
abbrev pub StartsAfter : ℕ → List Block → Type 0
StartsAfter lo [] = Unit
StartsAfter lo ((start, size) ∷ bs) = (lo ≤ start) × StartsAfter lo bs

abbrev pub Disjoint : List Block → Type 0
Disjoint [] = Unit
Disjoint ((start, size) ∷ bs) = StartsAfter (start + size) bs × Disjoint bs

abbrev pub EndsBefore : ℕ → List Block → Type 0
EndsBefore hi [] = Unit
EndsBefore hi ((start, size) ∷ bs) = (start + size ≤ hi) × EndsBefore hi bs

InOrder-StartsAfter :
    (lo lo' hi : ℕ) (bs : List Block) → lo ≤ lo' → InOrder lo' bs hi → StartsAfter lo bs
InOrder-StartsAfter lo lo' hi [] h o = tt
InOrder-StartsAfter lo lo' hi ((start, size) ∷ bs) h o =
    (omega arith, InOrder-StartsAfter lo (start + size) hi bs (omega arith) o.1)

InOrder-Disjoint : (lo hi : ℕ) (bs : List Block) → InOrder lo bs hi → Disjoint bs
InOrder-Disjoint lo hi [] o = tt
InOrder-Disjoint lo hi ((start, size) ∷ bs) o = (
  InOrder-StartsAfter (start + size) (start + size) hi bs (omega arith) o.1,
  InOrder-Disjoint (start + size) hi bs o.1,
)

InOrder-bounds : (lo hi : ℕ) (bs : List Block) → InOrder lo bs hi → lo ≤ hi
InOrder-bounds lo hi [] o = o
InOrder-bounds lo hi ((start, size) ∷ bs) o = omega (arith, InOrder-bounds (start + size) hi bs o.1)

InOrder-EndsBefore :
    (lo hi end : ℕ) (bs : List Block) → hi ≤ end → InOrder lo bs hi → EndsBefore end bs
InOrder-EndsBefore lo hi end [] h o = tt
InOrder-EndsBefore lo hi end ((start, size) ∷ bs) h o = (
  omega (arith, InOrder-bounds (start + size) hi bs o.1),
  InOrder-EndsBefore (start + size) hi end bs h o.1,
)

-- From a valid state, any sequence of requests runs without a panic, and the blocks that it gets
-- are disjoint, start at or behind the old `next`, and end inside the Wasm memory.
pub serve-Disjoint :
    (ls : List Layout) (s : State)
    → IsValid s
    → (bs : List Block) × (t : State) × (serve Target.wasm32 ls s ≡ ret (bs, t))
      × Disjoint bs
      × StartsAfter s.inner.next bs
      × EndsBefore (t.memory.pages * page_size) bs
serve-Disjoint ls s v =
    let (bs, t, run, w, o) = serve-InOrder ls s v in
    let lo = s.inner.next in
    let hi = t.inner.next in
    (
      bs,
      t,
      run,
      InOrder-Disjoint lo hi bs o,
      InOrder-StartsAfter lo lo hi bs (omega arith) o,
      InOrder-EndsBefore lo hi (t.memory.pages * page_size) bs (omega arith) o,
    )
