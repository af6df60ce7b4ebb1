-- ===== src/Alloc/Align.antt =====
-- The alignment of the addresses that `alloc` returns.
use native.Mathlib.Nat.{add-mod, mul_assoc, mul-mod_left, mod-eq_of_lt}
use ink.Prelude.{ℕ, ◌+◌, ◌*◌, ◌%◌, ◌≤◌, ◌<◌, ◌≡◌, ◌⊎◌, ◌∙◌, ap, inl, inr, some, ret, arith, ◌>>=◌}
use ink.Alloc.{Layout, padded_size, Target, State, alloc, page_size, request_pages}
use ink.Alloc.Bounds.{IsValid, alloc-Fits, alloc_in_place}

padded_size-mod : (l : Layout) → padded_size l % l.align ≡ 0
unfolding padded_size
padded_size-mod l = mul-mod_left _ l.align

padded_size-one : (l : Layout) → l.align ≡ 1 → padded_size l ≡ l.size
unfolding padded_size
padded_size-one l e = rw e (omega arith)

pub size-le-padded_size : (l : Layout) → 0 < l.align → l.size ≤ padded_size l
unfolding padded_size
size-le-padded_size l h = grind arith

add_mod_zero : (x y a : ℕ) → x % a ≡ 0 → y % a ≡ 0 → (x + y) % a ≡ 0
add_mod_zero x y a h k = rw (add-mod, h, k) (omega arith)

-- A block starts where the last one ended, or on the first new page.
alloc_start :
    (l : Layout) (s t : State) (p : ℕ)
    → IsValid s
    → alloc Target.wasm32 l s ≡ ret (some p, t)
    → (p ≡ s.inner.next) ⊎ (p ≡ s.memory.pages * page_size)
unfolding alloc request_pages
alloc_start l s t p v e = ground arith

page_mod : (n k a : ℕ) → page_size ≡ k * a → n * page_size % a ≡ 0
page_mod n k a e = ap (λ (x : ℕ). n * x % a) e ∙ rw (← mul_assoc n k a) (mul-mod_left (n * k) a)

-- Where the alignment of a request divides the page size and `next` is aligned to it, a block that
-- `alloc` returns is aligned, and so is the new `next`.
pub alloc-Aligned :
    (l : Layout) (s t : State) (p k : ℕ)
    → IsValid s
    → page_size ≡ k * l.align
    → s.inner.next % l.align ≡ 0
    → alloc Target.wasm32 l s ≡ ret (some p, t)
    → (p % l.align ≡ 0) × (t.inner.next % l.align ≡ 0)
alloc-Aligned l s t p k v page a e =
    let (_, ends, _) = alloc-Fits l s t p v e in
    let aligned : p % l.align ≡ 0 = elim (alloc_start l s t p v e) [
      | inl same ↦ rw same a
      | inr fresh ↦ rw fresh (page_mod s.memory.pages k l.align page)
    ] in
    (aligned, rw (← ends) (add_mod_zero p (padded_size l) l.align aligned (padded_size-mod l)))

-- The state after a block of `n` bytes that fits.
abbrev moved : State → ℕ → State
moved s n = record s { inner = record s.inner { next = s.inner.next + n } }

moved-IsValid :
    (s : State) (n : ℕ) → IsValid s → s.inner.next + n ≤ s.inner.upper_limit → IsValid (moved s n)
moved-IsValid s n v h = omega arith

next_mod : (x a : ℕ) → 1 < a → x % a ≡ 0 → (x + 1) % a ≡ 1
next_mod x a h k = rw (add-mod, k) (rw (mod-eq_of_lt {n = 1} h) (mod-eq_of_lt h))

-- After a block of one byte, a request with a larger alignment gets a block that is not aligned: in
-- a valid state with an aligned `next`, with room for both, its address has remainder 1.
pub alloc_unaligned :
    (byte l : Layout) (s : State)
    → IsValid s
    → byte.size ≡ 1
    → byte.align ≡ 1
    → 1 < l.align
    → s.inner.next % l.align ≡ 0
    → s.inner.next + 1 + padded_size l ≤ s.inner.upper_limit
    → (p : ℕ) × (t : State) × ((alloc Target.wasm32 byte s >>= λ r. alloc Target.wasm32 l r.1)
        ≡ ret (some p, t))
      × (p % l.align ≡ 1)
alloc_unaligned byte l s v size one big a fits =
    let len : padded_size byte ≡ 1 = padded_size-one byte one ∙ size in
    let s1 : State = moved s (padded_size byte) in
    let v1 = moved-IsValid s (padded_size byte) v (omega arith) in
    let first : alloc Target.wasm32 byte s ≡ ret (some s.inner.next, s1) =
      alloc_in_place byte s v (omega arith) in
    (
      s.inner.next + padded_size byte,
      moved s1 (padded_size l),
      rw first (alloc_in_place l s1 v1 (omega arith)),
      rw len (next_mod s.inner.next l.align big a),
    )
