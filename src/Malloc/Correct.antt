-- ===== src/Malloc/Correct.antt =====
-- tb-utils.c, lines 229-319: malloc and free as a caller sees them.
use threading_from_scratch.Prelude.{
  ℕ, ◌+◌, ◌≤◌, ◌≡◌, refl, ap, sym, ◌∙◌, inl, inr, true, false, ◌==◌, Option, none, some, List, [],
  ◌∷◌, ◌++◌, arith,
}
use mathlib.Core.List.{append-nil}
use threading_from_scratch.Malloc.{
  Chunk, Heap, Found, Kernel, header, fits, find_chunk, carve, alloc_size, known_limit, grow,
  malloc, free, after_grow, take_found,
}
use threading_from_scratch.Malloc.Sizes.{largest, alloc_size_bounds}
use threading_from_scratch.Malloc.Grow.{IsHeap, known_limit_lem, Grown, grow-Grown}
use threading_from_scratch.Malloc.Tiles.{Tiles, Tiles-append, Tiles-split, Tiles-carve}
use threading_from_scratch.Malloc.Blocks.{
  blocks, Tiles-Apart, blocks-append, find_chunk-eq, blocks-carve, Apart-start, no_block,
  blocks-free_chunk, Tiles-free_chunk,
}

module _ (k : Kernel) where
  open k use {base}

  -- What malloc does to the blocks: nothing if it returns null, and otherwise a new block appears
  -- among them, at the address that it returns.
  abbrev pub Allocated : ℕ → Heap → Heap × Option ℕ → Type 0
  Allocated size h (h', none) = IsHeap k h' × (blocks h'.chunks ≡ blocks h.chunks)
  Allocated size h (h', some p) =
      IsHeap k h'
      × (xs : List (ℕ × ℕ)) × (ys : List (ℕ × ℕ)) × (n : ℕ) × (size ≤ n)
      × (blocks h.chunks ≡ xs ++ ys)
      × (blocks h'.chunks ≡ xs ++ (p, n) ∷ ys)

  -- A chunk between others is carved.
  carved :
      (size lo hi : ℕ) (xs ys : List Chunk) (c : Chunk)
      → size ≤ largest
      → fits (alloc_size size) c ≡ true
      → Tiles lo (xs ++ c ∷ ys) hi
      → Tiles lo (xs ++ (carve (alloc_size size) c ++ ys)) hi
        × (n : ℕ) × (size ≤ n)
        × (blocks (xs ++ (carve (alloc_size size) c ++ ys))
            ≡ blocks xs ++ (c.addr + header, n) ∷ blocks ys)
  carved size lo hi xs ys c small fit t =
      let sizes = alloc_size_bounds size small in
      let (mid, before, there) = Tiles-split lo hi xs (c ∷ ys) t in
      let (end, it, behind) = Tiles-split mid hi (c ∷ []) ys there in
      let (n, le, e) = blocks-carve (alloc_size size) mid end c (omega (arith, sizes)) fit it in
      (
        Tiles-append lo mid hi xs _ before (
            Tiles-append mid end hi _ ys
              (Tiles-carve (alloc_size size) mid end c sizes.1 sizes.2 fit it) behind),
        n,
        omega (arith, sizes, le),
        simp (blocks-append, e),
      )

  none_found : (a : ℕ) (cs : List Chunk) (r : Found) → cs ≡ [] → find_chunk a cs ≡ some r → ⊥
  unfolding find_chunk
  none_found a [] r e found = cc
  none_found a (c ∷ cs) r e found = cc

  blocks-unused :
      (a : ℕ) (c : Chunk) (cs : List Chunk) → fits a c ≡ true → blocks (c ∷ cs) ≡ blocks cs
  blocks-unused a c cs fit = ground (arith, fit)

  malloc_found :
      (size : ℕ) (h : Heap) (r : Found)
      → size ≤ largest
      → IsHeap k h
      → find_chunk (alloc_size size) h.chunks ≡ some r
      → Allocated size h (
        record h { chunks = r.before ++ (carve (alloc_size size) r.chunk ++ r.behind) },
        some (r.chunk.addr + header),
      )
  malloc_found size h r small (inl (z, e)) found =
      absurd (none_found (alloc_size size) h.chunks r e found)
  malloc_found size h r small (inr (t, le)) found =
      let (split, fit) = find_chunk-eq (alloc_size size) h.chunks r found in
      let (tiles, n, enough, e) =
        carved size base h.heap_limit r.before r.behind r.chunk small fit (rw split at t) in
      (
        inr (tiles, le),
        blocks r.before,
        blocks r.behind,
        n,
        enough,
        ap blocks split
            ∙ (blocks-append r.before (r.chunk ∷ r.behind)
                ∙ ap (λ l. blocks r.before ++ l)
                    (blocks-unused (alloc_size size) r.chunk r.behind fit)),
        e,
      )

  malloc-Grown :
      (size : ℕ) (h h' : Heap) (c : Chunk)
      → size ≤ largest
      → IsHeap k h
      → Grown k size h (h', some c)
      → Allocated size h
          (record h' { chunks = h'.chunks ++ carve (alloc_size size) c }, some (c.addr + header))
  malloc-Grown size h h' c small is (same, below, fit, t) =
      let (old, le, pos) = known_limit_lem k h is in
      let sizes = alloc_size_bounds size small in
      let (n, enough, e) =
        blocks-carve (alloc_size size) (known_limit k h) h'.heap_limit c (omega (arith, sizes)) fit
          t in
      (
        inr (
          rw same (
              Tiles-append base (known_limit k h) h'.heap_limit h.chunks _ old
                (Tiles-carve (alloc_size size) _ _ c sizes.1 sizes.2 fit t)),
          below,
        ),
        blocks h.chunks,
        [],
        n,
        omega (arith, sizes, enough),
        sym (append-nil (blocks h.chunks)),
        simp (same, blocks-append, e),
      )

  Grown-case :
      (size : ℕ) (h : Heap) (g : Heap × Option Chunk)
      → size ≤ largest
      → IsHeap k h
      → Grown k size h g
      → Allocated size h (after_grow (alloc_size size) g)
  unfolding after_grow
  Grown-case size h (h', none) small is (limit, same) =
      let (t, le, pos) = known_limit_lem k h is in (inr (rw (same, limit) (t, le)), ap blocks same)
  Grown-case size h (h', some c) small is g = malloc-Grown size h h' c small is g

  found_case :
      (size : ℕ) (h : Heap) (o : Option Found) (g : Heap × Option ℕ)
      → size ≤ largest
      → IsHeap k h
      → find_chunk (alloc_size size) h.chunks ≡ o
      → Allocated size h g
      → Allocated size h (take_found (alloc_size size) h o g)
  unfolding take_found
  found_case size h none g small is found grown = grown
  found_case size h (some r) g small is found grown = malloc_found size h r small is found

  -- Of any heap, malloc of up to 2^61 bytes either returns null and leaves the blocks as they are,
  -- or returns the address of a new block of at least that size and changes no other; the chunks
  -- lie end to end afterwards as they did before.
  pub malloc-Allocated :
      (size : ℕ) (h : Heap) → size ≤ largest → IsHeap k h → Allocated size h (malloc k size h)
  unfolding malloc
  malloc-Allocated size h small is =
      found_case size h (find_chunk (alloc_size size) h.chunks) _ small is refl
        (Grown-case size h (grow k size h) small is (grow-Grown k size h small is))

  -- Of any heap, free of a block takes exactly that block from the blocks, whatever its place, and
  -- the chunks lie end to end afterwards as they did before.
  pub free-block :
      (p n : ℕ) (h : Heap) (xs ys : List (ℕ × ℕ))
      → IsHeap k h
      → blocks h.chunks ≡ xs ++ (p, n) ∷ ys
      → IsHeap k (free p h) × (blocks (free p h).chunks ≡ xs ++ ys)
  unfolding free
  free-block p n h xs ys (inl (z, e)) b = absurd (no_block p n h.chunks xs ys e b)
  free-block p n h xs ys (inr (t, le)) b =
      let start = Apart-start base p n xs ys (rw b at (Tiles-Apart base h.heap_limit h.chunks t)) in
      let set : (p == 0) ≡ false = ground (arith, start) in
      rw set (
        inr (Tiles-free_chunk base h.heap_limit p h.chunks t, le),
        blocks-free_chunk base h.heap_limit p n h.chunks xs ys t b,
      )
