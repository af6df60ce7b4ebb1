-- ===== src/Alloc.antt =====
-- The bump allocator, crates/allocator/src/bump.rs. A `usize` has 32 bits on the supported targets.
-- The Wasm memory that `memory_size` and `memory_grow` act on is part of the state.
pub mod Bounds
pub mod Blocks
pub mod Align
mod Tests
use Prim.Native.Nat.{min}
use ink.Prelude.{
  ℕ, ◌+◌, ◌-◌, ◌*◌, ◌/◌, ◌%◌, ◌^◌, Bool, true, false, Option, none, some, List, [], ◌∷◌, ltb, leb,
  nat_beq, if◌then◌else◌, Outcome, ret, panic, ◌>>=◌, ◌>>◌, assert, not,
}

abbrev pub usize_mod : ℕ
usize_mod = 2 ^ 32

-- `PAGE_SIZE`
abbrev pub page_size : ℕ
page_size = 64 * 1024

-- `core::alloc::Layout`
pub record Layout : Type 0 where
  pub size : ℕ
  pub align : ℕ

-- `Layout::pad_to_align` and `size`: the size, rounded up to a multiple of the alignment.
pub padded_size : Layout → ℕ
padded_size l = (l.size + l.align - 1) / l.align * l.align

-- The branches of `cfg_if!`.
pub data Target : Type 0 where
  test std wasm32 riscv32 : Target

-- The linear memory of a Wasm instance, in pages, its maximum, and the linker's `__heap_base`.
pub record Memory : Type 0 where
  pub pages : ℕ
  pub max_pages : ℕ
  pub heap_base : ℕ

pub record InnerAlloc : Type 0 where
  pub next : ℕ
  pub upper_limit : ℕ

pub record State : Type 0 where
  pub inner : InnerAlloc
  pub memory : Memory

abbrev pub checked_add : ℕ → ℕ → Option ℕ
checked_add a b = if ltb (a + b) usize_mod then some (a + b) else none

abbrev pub checked_mul : ℕ → ℕ → Option ℕ
checked_mul a b = if ltb (a * b) usize_mod then some (a * b) else none

abbrev pub and_then : {A B : Type 0} → Option A → (A → Option B) → Option B
and_then none f = none
and_then (some a) f = f a

-- `memory_grow`: the old size, or `usize::MAX` when the memory cannot be grown.
abbrev pub memory_grow : ℕ → Memory → ℕ × Memory
memory_grow n m =
    if leb (m.pages + n) m.max_pages
    then (m.pages, record m { pages = m.pages + n })
    else (usize_mod - 1, m)

pub heap_start : Target → Memory → Outcome ℕ
heap_start Target.test m = ret 0
heap_start Target.std m = ret 0
heap_start Target.wasm32 m = do assert (not (nat_beq m.heap_base 0)); ret m.heap_base
heap_start Target.riscv32 m = ret 0x7000_0000

pub heap_end : Target → Memory → ℕ
heap_end Target.test m = 0
heap_end Target.std m = 0
heap_end Target.wasm32 m = m.pages * page_size % usize_mod
heap_end Target.riscv32 m = 0x7000_0400

-- The `std` branch is `unreachable!`.
pub request_pages : Target → ℕ → State → Outcome (Option ℕ × State)
request_pages Target.test n s = ret (some s.inner.upper_limit, s)
request_pages Target.std n s = panic
request_pages Target.wasm32 n s =
    let (prev_page, m) = memory_grow n s.memory in
    ret (
      if nat_beq prev_page (usize_mod - 1) then none else some (prev_page * page_size % usize_mod),
      record s { memory = m },
    )
request_pages Target.riscv32 n s = ret (none, s)

pub new : Target → Memory → Outcome InnerAlloc
new t m = do start ← heap_start t m; ret (record { next = start; upper_limit = heap_end t m })

pub required_pages : ℕ → Option ℕ
required_pages size = and_then (checked_add size (page_size - 1)) (λ num. some (num / page_size))

-- The rest of `alloc` once the pages are there. The limit is written before the last `?`.
pub move_to_pages : ℕ → ℕ → ℕ → InnerAlloc → Option ℕ × InnerAlloc
move_to_pages aligned_size required page_start a =
    elim (and_then (checked_mul required page_size) (checked_add page_start)) [
      | none ↦ (none, a)
      | some limit ↦ elim (checked_add page_start aligned_size) [
        | none ↦ (none, record a { upper_limit = limit })
        | some next ↦ (some page_start, record { next = next; upper_limit = limit })
      ]
    ]

pub after_request : ℕ → ℕ → Option ℕ × State → Option ℕ × State
unfolding move_to_pages
after_request aligned_size required (none, s) = (none, s)
after_request aligned_size required (some page_start, s) =
    let (r, a) = move_to_pages aligned_size required page_start s.inner in
    (r, record s { inner = a })

-- `InnerAlloc::alloc`
pub alloc : Target → Layout → State → Outcome (Option ℕ × State)
unfolding after_request required_pages
alloc t layout s =
    let aligned_size = padded_size layout in
    elim (checked_add s.inner.next aligned_size) [
      | none ↦ ret (none, s)
      | some alloc_end ↦
          if ltb s.inner.upper_limit alloc_end
          then elim (required_pages aligned_size) [
            | none ↦ ret (none, s)
            | some required ↦
                request_pages t required s >>= λ r. ret (after_request aligned_size required r)
          ]
          else ret (some s.inner.next, record s { inner = record s.inner { next = alloc_end } })
    ]

-- The static `INNER`, with the memory.
pub record Global : Type 0 where
  pub inner : Option InnerAlloc
  pub memory : Memory

-- `INNER` is set up on the first call.
pub ensure_inner : Target → Global → Outcome State
ensure_inner t g = elim g.inner [
  | none ↦ new t g.memory >>= λ a. ret (record { inner = a; memory = g.memory })
  | some a ↦ ret (record { inner = a; memory = g.memory })
]

-- `GlobalAlloc::alloc`; the null pointer is address 0.
pub global_alloc : Target → Layout → Global → Outcome (ℕ × Global)
global_alloc t layout g = do
  s ← ensure_inner t g
  r ← alloc t layout s
  ret (
    elim r.0 [ none ↦ 0 | some start ↦ start ],
    record { inner = some r.1.inner; memory = r.1.memory },
  )

-- `GlobalAlloc::alloc_zeroed`
pub global_alloc_zeroed : Target → Layout → Global → Outcome (ℕ × Global)
global_alloc_zeroed t layout g = global_alloc t layout g

-- `GlobalAlloc::dealloc` frees nothing.
pub dealloc : ℕ → Layout → Global → Global
dealloc ptr layout g = g
