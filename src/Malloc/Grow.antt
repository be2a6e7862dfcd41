-- ===== src/Malloc/Grow.antt =====
-- tb-utils.c, lines 257-291: what the heap is, and the chunk that the kernel adds to it.
use threading_from_scratch.Prelude.{
  ℕ, ◌+◌, ◌%◌, ◌^◌, ◌≤◌, ◌<◌, ◌≡◌, refl, ◌⊎◌, inl, inr, true, false, ◌==◌, Bool-cases, Option, none,
  some, List, [], ◌∷◌, arith,
}
use threading_from_scratch.Malloc.{
  Chunk, Heap, Kernel, header, fits, word64, alloc_size, chunk_size, known_limit, grow,
}
use threading_from_scratch.Malloc.Sizes.{largest, alloc_size_bounds, chunk_size_bounds}
use threading_from_scratch.Malloc.Tiles.{bytes, Tiles}

pub Tiles-le : (lo hi : ℕ) (cs : List Chunk) → Tiles lo cs hi → lo ≤ hi
Tiles-le lo hi [] t = omega arith
Tiles-le lo hi (c ∷ cs) t = omega (arith, Tiles-le (lo + header + bytes c.size) hi cs t.4)

module _ (k : Kernel) where
  open k use {base, brk, base_known, brk-zero, brk_either, brk_below, base_below}

  -- Before the first call, and after it.
  abbrev pub IsHeap : Heap → Type 0
  IsHeap h =
      ((h.heap_limit ≡ 0) × (h.chunks ≡ []))
      ⊎ (Tiles base h.chunks h.heap_limit × (h.heap_limit ≤ 2 ^ 47))

  pub known_limit_lem :
      (h : Heap)
      → IsHeap h
      → Tiles base h.chunks (known_limit k h) × (known_limit k h ≤ 2 ^ 47) × (0 < known_limit k h)
  unfolding known_limit
  known_limit_lem h (inl (z, e)) = rw (z, e, brk-zero) (refl, base_below, base_known)
  known_limit_lem h (inr (t, le)) =
      let pos = Tiles-le base h.heap_limit h.chunks t in
      let known : (h.heap_limit == 0) ≡ false = ground arith in rw known (t, le, omega arith)

  abbrev pub Grown : ℕ → Heap → Heap × Option Chunk → Type 0
  Grown size h (h', none) = (h'.heap_limit ≡ known_limit k h) × (h'.chunks ≡ h.chunks)
  Grown size h (h', some c) =
      (h'.chunks ≡ h.chunks)
      × (h'.heap_limit ≤ 2 ^ 47)
      × (fits (alloc_size size) c ≡ true)
      × Tiles (known_limit k h) (c ∷ []) h'.heap_limit

  pub grow-Grown : (size : ℕ) (h : Heap) → size ≤ largest → IsHeap h → Grown size h (grow k size h)
  unfolding grow
  grow-Grown size h small is = elim (Bool-cases (known_limit k h == brk (known_limit k h) asked)) [
    | inl e ↦ rw e (refl, refl)
    | inr d ↦
        let granted : brk (known_limit k h) asked ≡ known_limit k h + chunk_size size =
          ground (arith, d, limit, sizes, brk_either (known_limit k h) asked) in
        rw d (
          refl,
          brk_below (known_limit k h) asked limit.1,
          ground (arith, granted, limit.1, sizes),
          ground (arith, granted, limit.1, sizes, alloc_size_bounds size small),
        )
  ]
    where
      limit :
          Tiles base h.chunks (known_limit k h) × (known_limit k h ≤ 2 ^ 47) × (0 < known_limit k h)
      limit = known_limit_lem h is

      sizes :
          (alloc_size size + header ≤ chunk_size size)
          × (chunk_size size % 8 ≡ 0)
          × (chunk_size size ≤ size + 5000)
      sizes = chunk_size_bounds size small

      asked : ℕ
      asked = (known_limit k h + chunk_size size) % word64
