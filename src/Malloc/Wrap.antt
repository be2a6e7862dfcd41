-- ===== src/Malloc/Wrap.antt =====
-- tb-utils.c, lines 233-275: requests near 2^64.
use threading_from_scratch.Prelude.{ℕ, ◌-◌, ◌^◌, ◌<◌, ◌≡◌, arith}
use threading_from_scratch.Malloc.{Heap, Kernel, malloc, alloc_size, chunk_size, grow}

alloc_size_wraps : (size : ℕ) → 2 ^ 64 - 8 < size → size < 2 ^ 64 → alloc_size size ≡ alloc_size 16
unfolding alloc_size
alloc_size_wraps size lo hi = ground arith

chunk_size_wraps : (size : ℕ) → 2 ^ 64 - 8 < size → size < 2 ^ 64 → chunk_size size ≡ chunk_size 16
unfolding chunk_size
chunk_size_wraps size lo hi = ground arith

-- malloc does with a request of more than 2^64 - 8 bytes all that it does with one of 16 bytes, on
-- any heap.
pub malloc_wraps :
    (k : Kernel) (size : ℕ) (h : Heap)
    → 2 ^ 64 - 8 < size
    → size < 2 ^ 64
    → malloc k size h ≡ malloc k 16 h
unfolding malloc grow
malloc_wraps k size h lo hi = rw (alloc_size_wraps size lo hi, chunk_size_wraps size lo hi)
