-- ===== src/Malloc/Reuse.antt =====
-- tb-utils.c, lines 245-319: when malloc succeeds.
use threading_from_scratch.Prelude.{
  ℕ, ◌+◌, ◌%◌, ◌^◌, ◌≤◌, ◌<◌, ◌≡◌, refl, ap, inl, inr, Bool-cases, true, false, Option, none, some,
  List, [], ◌∷◌, ◌++◌, arith, ◌==◌, ==_iff,
}
use threading_from_scratch.Malloc.{
  Chunk, Heap, Found, Kernel, header, malloc, free, is_used, mark_free, fits, skip, find_chunk,
  free_chunk, alloc_size, chunk_size, known_limit, take_found, after_grow, grow, word64,
}
use threading_from_scratch.Malloc.Sizes.{largest, chunk_size_bounds}
use threading_from_scratch.Malloc.Tiles.{bytes, Tiles}
use threading_from_scratch.Malloc.Grow.{IsHeap, known_limit_lem}
use threading_from_scratch.Malloc.Blocks.{
  blocks, not_later, tail_eq, Apart-start, no_block, Tiles-Apart,
}

-- The chunk at a block's address is the block's.
pub here_block :
    (lo hi p n : ℕ) (c : Chunk) (cs : List Chunk) (xs ys : List (ℕ × ℕ))
    → Tiles lo (c ∷ cs) hi
    → c.addr + header ≡ p
    → blocks (c ∷ cs) ≡ xs ++ (p, n) ∷ ys
    → (is_used c.size ≡ true) × (bytes c.size ≡ n)
here_block lo hi p n c cs xs ys t e b = elim (Bool-cases (is_used c.size)) [
  | inl used ↦ (used, first xs (rw used at b))
  | inr unused ↦ absurd (not_later lo hi p n c cs xs ys t e (rw unused at b))
]
  where
    first :
        (xs : List (ℕ × ℕ))
        → ◌≡◌ {A = List (ℕ × ℕ)} ((c.addr + header, bytes c.size) ∷ blocks cs) (xs ++ (p, n) ∷ ys)
        → bytes c.size ≡ n
    first [] b = ap (λ (x : ℕ × ℕ). x.1) (tail_eq _ _ _ _ b).0
    first (x ∷ xs) b = absurd (not_later lo hi p n c cs xs ys t e (tail_eq _ _ _ _ b).1)

skip-some :
    (c : Chunk) (o : Option Found) (r : Found) → o ≡ some r → (s : Found) × (skip c o ≡ some s)
skip-some c o r e = (record r { before = c ∷ r.before }, rw e)

-- The blocks behind a chunk that is not at the block's address have the block.
pub later_block :
    (p n : ℕ) (c : Chunk) (cs : List Chunk) (xs ys : List (ℕ × ℕ))
    → (c.addr + header ≡ p → ⊥)
    → blocks (c ∷ cs) ≡ xs ++ (p, n) ∷ ys
    → (zs : List (ℕ × ℕ)) × (blocks cs ≡ zs ++ (p, n) ∷ ys)
later_block p n c cs xs ys d b = elim (Bool-cases (is_used c.size)) [
  | inl used ↦ rest xs (rw used at b)
  | inr unused ↦ (xs, rw unused at b)
]
  where
    rest :
        (xs : List (ℕ × ℕ))
        → ◌≡◌ {A = List (ℕ × ℕ)} ((c.addr + header, bytes c.size) ∷ blocks cs) (xs ++ (p, n) ∷ ys)
        → (zs : List (ℕ × ℕ)) × (blocks cs ≡ zs ++ (p, n) ∷ ys)
    rest [] b = absurd (d (ap (λ (x : ℕ × ℕ). x.0) (tail_eq _ _ _ _ b).0))
    rest (x ∷ xs) b = (xs, (tail_eq _ _ _ _ b).1)

find_chunk-free_chunk :
    (a lo hi p n : ℕ) (cs : List Chunk) (xs ys : List (ℕ × ℕ))
    → a ≤ n
    → Tiles lo cs hi
    → blocks cs ≡ xs ++ (p, n) ∷ ys
    → (r : Found) × (find_chunk a (free_chunk p cs) ≡ some r)
unfolding find_chunk free_chunk
find_chunk-free_chunk a lo hi p n [] [] ys le t b = cc
find_chunk-free_chunk a lo hi p n [] (x ∷ xs) ys le t b = cc
find_chunk-free_chunk a lo hi p n (c ∷ cs) xs ys le t b = elim (Bool-cases (c.addr + header == p)) [
  | inl here ↦
      let (used, e) = here_block lo hi p n c cs xs ys t ((==_iff _ p).0 here) b in
      let fit : fits a (record c { size = mark_free c.size }) ≡ true = ground (arith, t.1) in
      rw (here, fit) (_, refl)
  | inr other ↦
      let (zs, later) = later_block p n c cs xs ys (λ e. cc ((==_iff _ p).1 e)) b in
      let (r, found) =
        find_chunk-free_chunk a (lo + header + bytes c.size) hi p n cs zs ys le t.4 later in
      elim (Bool-cases (fits a c)) [
        | inl fit ↦ rw (other, fit) (_, refl)
        | inr no_fit ↦ rw (other, no_fit) (skip-some c _ r found)
      ]
]

module _ (k : Kernel) where
  -- Of any heap, after free of a block, malloc of a size that rounds up to the block's or less does not
  -- return null and leaves the heap limit as it is.
  pub malloc_reuses :
      (size p n : ℕ) (h : Heap) (xs ys : List (ℕ × ℕ))
      → IsHeap k h
      → blocks h.chunks ≡ xs ++ (p, n) ∷ ys
      → alloc_size size ≤ n
      → (q : ℕ) × ((malloc k size (free p h)).1 ≡ some q)
        × ((malloc k size (free p h)).0.heap_limit ≡ h.heap_limit)
  unfolding malloc take_found free
  malloc_reuses size p n h xs ys (inl (z, e)) b le = absurd (no_block p n h.chunks xs ys e b)
  malloc_reuses size p n h xs ys (inr (t, below)) b le =
      let apart = Tiles-Apart k.base h.heap_limit h.chunks t in
      let start = Apart-start k.base p n xs ys (rw b at apart) in
      let set : (p == 0) ≡ false = ground (arith, start) in
      let (r, found) =
        find_chunk-free_chunk (alloc_size size) k.base h.heap_limit p n h.chunks xs ys le t b in
      rw (set, found) (_, refl, refl)

  -- Of any heap, malloc of up to 2^61 bytes does not return null if the kernel grants every larger break
  -- up to 2^47, and the heap's end, the size and 5000 bytes stay below that.
  pub malloc_succeeds :
      (size : ℕ) (h : Heap)
      → size ≤ largest
      → IsHeap k h
      → ((now asked : ℕ) → now < asked → asked ≤ 2 ^ 47 → k.brk now asked ≡ asked)
      → known_limit k h + size + 5000 ≤ 2 ^ 47
      → (q : ℕ) × ((malloc k size h).1 ≡ some q)
  unfolding malloc grow take_found after_grow
  malloc_succeeds size h small is grants room =
      let (t, le, pos) = known_limit_lem k h is in
      let sizes = chunk_size_bounds size small in
      let small_sum : (known_limit k h + chunk_size size) % word64
          ≡ known_limit k h + chunk_size size =
        omega (arith, room, sizes) in
      let moved : (known_limit k h == known_limit k h + chunk_size size) ≡ false =
        ground (arith, sizes) in
      served (find_chunk (alloc_size size) h.chunks) _ (
        rw
          (
            small_sum,
            grants (known_limit k h) (known_limit k h + chunk_size size) (omega (arith, sizes))
                (omega (arith, room, sizes)),
            moved,
          )
          (_, refl))
    where
      served :
          (o : Option Found) (g : Heap × Option ℕ)
          → (q : ℕ) × (g.1 ≡ some q)
          → (q : ℕ) × ((take_found (alloc_size size) h o g).1 ≡ some q)
      served none g got = got
      served (some r) g got = (_, refl)
