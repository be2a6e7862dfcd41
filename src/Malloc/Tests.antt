-- ===== src/Malloc/Tests.antt =====
-- tb-utils.c, lines 216-327: runs of malloc and free.
use threading_from_scratch.Prelude.{
  ℕ, ◌+◌, ◌-◌, ◌^◌, ◌≤◌, ◌≡◌, refl, ◌⊎◌, inr, leb, ◌==◌, if◌then◌else◌, some, List, [], ◌∷◌, arith,
}
use threading_from_scratch.Malloc.{
  Kernel, Heap, alloc_size, malloc, free, find_chunk, carve, grow, known_limit, chunk_size,
}
use threading_from_scratch.Malloc.Grow.{IsHeap}
use threading_from_scratch.Malloc.Blocks.{blocks, Apart}
use threading_from_scratch.Malloc.Correct.{Allocated, malloc-Allocated, free-block}
use threading_from_scratch.Malloc.History.{
  Call, alloc, release, no_heap, AllFair, Aligned, calls, blocks-Apart,
}
use threading_from_scratch.Malloc.Reuse.{malloc_reuses, malloc_succeeds}
use threading_from_scratch.Malloc.Wrap.{malloc_wraps}

abbrev grant : ℕ → ℕ → ℕ
grant now asked = if asked == 0 then now else if leb asked (2 ^ 47) then asked else now

pub grant_either : (now asked : ℕ) → (grant now asked ≡ asked) ⊎ (grant now asked ≡ now)
grant_either now asked = ground arith

pub grant_below : (now asked : ℕ) → now ≤ 2 ^ 47 → grant now asked ≤ 2 ^ 47
grant_below now asked h = ground arith

-- A kernel that grants every break up to 2^47.
abbrev pub granting : Kernel
granting = record {
  base = 4096;
  brk = grant;
  base_known = omega arith;
  brk-zero = refl;
  brk_either = grant_either;
  brk_below = grant_below;
  base_below = omega arith;
}

-- The first request takes a page and leaves the rest of it unused.
abbrev pub one_block : Heap
one_block = record {
  chunks =
      (record { addr = 4096; size = 104 + 2 ^ 62 }) ∷ (record { addr = 4216; size = 3960 }) ∷ [];
  heap_limit = 8192;
}

first_request : malloc granting 100 no_heap ≡ (one_block, some 4112)
unfolding malloc alloc_size find_chunk carve grow known_limit chunk_size
first_request = refl

pub one_block-IsHeap : IsHeap granting one_block
one_block-IsHeap = inr (omega arith)

malloc-Allocated_example : Allocated granting 200 one_block (malloc granting 200 one_block)
malloc-Allocated_example = malloc-Allocated granting 200 one_block (omega arith) one_block-IsHeap

free-block_example :
    IsHeap granting (free 4112 one_block) × (blocks (free 4112 one_block).chunks ≡ [])
free-block_example = free-block granting 4112 104 one_block [] [] one_block-IsHeap refl

malloc_reuses_run :
    (q : ℕ) × ((malloc granting 50 (free 4112 one_block)).1 ≡ some q)
    × ((malloc granting 50 (free 4112 one_block)).0.heap_limit ≡ 8192)
unfolding alloc_size
malloc_reuses_run =
    malloc_reuses granting 50 4112 104 one_block [] [] one_block-IsHeap refl (omega arith)

malloc_succeeds_example : (q : ℕ) × ((malloc granting 5000 one_block).1 ≡ some q)
unfolding known_limit
malloc_succeeds_example =
    malloc_succeeds granting 5000 one_block (omega arith) one_block-IsHeap
      (λ now asked lt le. ground arith) (omega arith)

malloc_wraps_example : malloc granting (2 ^ 64 - 1) one_block ≡ malloc granting 16 one_block
malloc_wraps_example = malloc_wraps granting (2 ^ 64 - 1) one_block (omega arith) (omega arith)

abbrev session : List Call
session = alloc 100 ∷ alloc 40 ∷ release 4112 ∷ alloc 3 ∷ []

session-AllFair : AllFair granting session no_heap
unfolding calls malloc alloc_size find_chunk carve grow known_limit chunk_size
session-AllFair =
    (omega arith, (omega arith, (([], 104, (4232, 40) ∷ [], refl), (omega arith, tt))))

blocks-Apart_example :
    Apart 4096 (blocks (calls granting session no_heap).chunks)
    × Aligned (blocks (calls granting session no_heap).chunks)
blocks-Apart_example = blocks-Apart granting session refl session-AllFair
