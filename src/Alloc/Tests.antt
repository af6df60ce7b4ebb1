-- ===== src/Alloc/Tests.antt =====
-- The theorems on the bump allocator at concrete states.
use ink.Prelude.{ℕ, ◌*◌, ◌%◌, ◌≡◌, refl, none, some, List, [], ◌∷◌, ret, ◌>>=◌, arith}
use ink.Alloc.{Layout, padded_size, Target, State, page_size, required_pages, alloc, request_pages}
use ink.Alloc.Bounds.{IsValid}
use ink.Alloc.Blocks.{Block, serve, Disjoint, StartsAfter, EndsBefore, serve-Disjoint}
use ink.Alloc.Align.{alloc-Aligned, alloc_unaligned}

abbrev byte_layout : Layout
byte_layout = record { size = 1; align = 1 }

abbrev word_layout : Layout
word_layout = record { size = 6; align = 4 }

abbrev big_layout : Layout
big_layout = record { size = 200000; align = 4 }

-- Two pages, of three at most, whose heap starts at 1024.
abbrev two_pages : State
two_pages = record {
  inner = record { next = 1024; upper_limit = 131072 };
  memory = record { pages = 2; max_pages = 3; heap_base = 1024 };
}

two_pages-IsValid : IsValid two_pages
two_pages-IsValid = record {
  next_le = omega arith;
  limit_lt = omega arith;
  limit_le = omega arith;
  pages_le = omega arith;
  max_le = omega arith;
}

abbrev after_word : State
after_word = record two_pages { inner = record { next = 1032; upper_limit = 131072 } }

word_served : alloc Target.wasm32 word_layout two_pages ≡ ret (some 1024, after_word)
unfolding alloc padded_size
word_served = refl

abbrev full : State
full = two_pages

big_refused : alloc Target.wasm32 big_layout full ≡ ret (none, full)
unfolding alloc padded_size request_pages required_pages
big_refused = refl

serve-Disjoint_example :
    (bs : List Block) × (t : State) × (serve Target.wasm32
        (word_layout ∷ big_layout ∷ byte_layout ∷ [])
        two_pages
      ≡ ret (bs, t))
    × Disjoint bs
    × StartsAfter 1024 bs
    × EndsBefore (t.memory.pages * page_size) bs
serve-Disjoint_example =
    serve-Disjoint (word_layout ∷ big_layout ∷ byte_layout ∷ []) two_pages two_pages-IsValid

alloc-Aligned_example : (1024 % 4 ≡ 0) × (1032 % 4 ≡ 0)
alloc-Aligned_example =
    alloc-Aligned word_layout two_pages after_word 1024 16384 two_pages-IsValid refl refl
      word_served

alloc_unaligned_example :
    (p : ℕ) × (t : State) × ((alloc Target.wasm32 byte_layout two_pages >>= λ r.
    alloc Target.wasm32 word_layout r.1)
      ≡ ret (some p, t))
    × (p % 4 ≡ 1)
unfolding padded_size
alloc_unaligned_example =
    alloc_unaligned byte_layout word_layout two_pages two_pages-IsValid refl refl (omega arith) refl
      (omega arith)
