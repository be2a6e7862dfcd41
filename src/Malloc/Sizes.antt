-- ===== src/Malloc/Sizes.antt =====
-- tb-utils.c, lines 241-243 and 273-275: the sizes that malloc computes, in 64-bit arithmetic.
use threading_from_scratch.Prelude.{ℕ, ◌+◌, ◌%◌, ◌^◌, ◌≤◌, ◌≡◌, arith}
use threading_from_scratch.Malloc.{alloc_size, chunk_size, header}

-- Requests up to this size are far from wrapping around.
abbrev pub largest : ℕ
largest = 2 ^ 61

-- A request is rounded up to a multiple of 8 that is at least 16.
pub alloc_size_bounds :
    (size : ℕ)
    → size ≤ largest
    → (size ≤ alloc_size size)
      × (16 ≤ alloc_size size)
      × (alloc_size size % 8 ≡ 0)
      × (alloc_size size ≤ size + 16)
unfolding alloc_size
alloc_size_bounds size h = ground arith

-- Whole pages, with room for the rounded request and a header.
pub chunk_size_bounds :
    (size : ℕ)
    → size ≤ largest
    → (alloc_size size + header ≤ chunk_size size)
      × (chunk_size size % 8 ≡ 0)
      × (chunk_size size ≤ size + 5000)
unfolding alloc_size chunk_size
chunk_size_bounds size h = ground arith
