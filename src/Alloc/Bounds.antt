-- ===== src/Alloc/Bounds.antt =====
-- What single requests do, crates/allocator/src/bump.rs.
use ink.Prelude.{ℕ, ◌+◌, ◌*◌, ◌≤◌, ◌<◌, ◌≡◌, ◌≢◌, ◌⊎◌, none, some, arith, ret, panic}
use ink.Alloc.{
  Layout, padded_size, Target, Memory, InnerAlloc, State, usize_mod, page_size, required_pages,
  alloc, request_pages, new, heap_start, heap_end,
}

-- `required_pages`, where it returns, gives the smallest number of pages that hold `size` bytes.
pub required_pages-bounds :
    (size n : ℕ)
    → required_pages size ≡ some n
    → (size ≤ n * page_size) × (n * page_size < size + page_size)
unfolding required_pages
required_pages-bounds size n h = ground arith

-- The free space ends inside the memory, which is within its maximum and the address space.
pub record IsValid (s : State) : Type 0 where
  pub next_le : s.inner.next ≤ s.inner.upper_limit
  pub limit_lt : s.inner.upper_limit < usize_mod
  pub limit_le : s.inner.upper_limit ≤ s.memory.pages * page_size
  pub pages_le : s.memory.pages ≤ s.memory.max_pages
  pub max_le : s.memory.max_pages ≤ 65536

-- `InnerAlloc::new` sets up a valid state, if the heap starts inside a memory of fewer than 65536
-- pages.
pub new-IsValid :
    (m : Memory) (a : InnerAlloc)
    → m.heap_base ≤ m.pages * page_size
    → m.pages ≤ m.max_pages
    → m.max_pages < 65536
    → new Target.wasm32 m ≡ ret a
    → IsValid (record { inner = a; memory = m })
unfolding new heap_start heap_end
new-IsValid m a h k l e = ground arith

-- A block that `alloc` returns starts at or behind the old `next` and ends at the new one, and the
-- new state is valid.
pub alloc-Fits :
    (l : Layout) (s t : State) (p : ℕ)
    → IsValid s
    → alloc Target.wasm32 l s ≡ ret (some p, t)
    → (s.inner.next ≤ p) × (p + padded_size l ≡ t.inner.next) × IsValid t
unfolding alloc request_pages
alloc-Fits l s t p v e = ground arith

-- A request that `alloc` refuses leaves the allocator as it was, and the state valid.
pub alloc-none :
    (l : Layout) (s t : State)
    → IsValid s
    → alloc Target.wasm32 l s ≡ ret (none, t)
    → (t.inner ≡ s.inner) × IsValid t
unfolding alloc request_pages
alloc-none l s t v e = ground arith

-- A request that fits below the limit gets the block at `next`, and nothing else changes.
pub alloc_in_place :
    (l : Layout) (s : State)
    → IsValid s
    → s.inner.next + padded_size l ≤ s.inner.upper_limit
    → alloc Target.wasm32 l s
      ≡ ret (
        some s.inner.next,
        record s { inner = record s.inner { next = s.inner.next + padded_size l } },
      )
unfolding alloc request_pages
alloc_in_place l s v h = ground arith

-- A request that does not fit gets a block at the start of new pages, if they can be had.
pub alloc_new_pages :
    (l : Layout) (s : State) (n : ℕ)
    → IsValid s
    → s.inner.upper_limit < s.inner.next + padded_size l
    → s.inner.next + padded_size l < usize_mod
    → required_pages (padded_size l) ≡ some n
    → s.memory.pages + n ≤ s.memory.max_pages
    → s.memory.pages + n < 65536
    → alloc Target.wasm32 l s
      ≡ ret (
        some (s.memory.pages * page_size),
        record {
          inner = record {
            next = s.memory.pages * page_size + padded_size l;
            upper_limit = (s.memory.pages + n) * page_size;
          };
          memory = record s.memory { pages = s.memory.pages + n };
        },
      )
unfolding alloc request_pages
alloc_new_pages l s n v h k r g c = ground arith

-- `alloc` refuses a request only if it does not fit below the limit, and any number of pages that
-- holds it exceeds the memory's maximum or the address space, or the end of the block, counted from
-- `next`, does.
alloc_out_of_memory :
    (l : Layout) (s t : State) (n : ℕ)
    → IsValid s
    → padded_size l ≤ n * page_size
    → alloc Target.wasm32 l s ≡ ret (none, t)
    → (s.inner.upper_limit < s.inner.next + padded_size l)
      × ((s.memory.max_pages < s.memory.pages + n)
          ⊎ (65536 ≤ s.memory.pages + n)
          ⊎ (usize_mod ≤ s.inner.next + padded_size l))
unfolding alloc request_pages
alloc_out_of_memory l s t n v h e = (ground arith, ground arith)

pub alloc-ne-panic : (l : Layout) (s : State) → alloc Target.wasm32 l s ≢ panic
unfolding alloc request_pages
alloc-ne-panic l s = ground arith
