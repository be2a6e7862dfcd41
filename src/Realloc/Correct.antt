-- ===== src/Realloc/Correct.antt =====
-- tb-utils.c, lines 331-356: what calloc and realloc give their caller.
use threading_from_scratch.Prelude.{
  ℕ, ◌+◌, ◌*◌, ◌%◌, ◌≤◌, ◌<◌, ◌≡◌, ◌≢◌, refl, sym, ap, ◌∙◌, inl, inr, true, ◌==◌, ==_iff,
  Bool-cases, Option, none, some, List, [], ◌∷◌, ◌++◌, arith,
}
use threading_from_scratch.Malloc.{Chunk, Heap, Kernel, header, word64, is_used, malloc}
use threading_from_scratch.Malloc.Sizes.{largest}
use threading_from_scratch.Malloc.Tiles.{bytes, Tiles}
use threading_from_scratch.Malloc.Grow.{IsHeap}
use threading_from_scratch.Malloc.Blocks.{blocks, Apart, Tiles-Apart, no_block}
use threading_from_scratch.Malloc.Correct.{Allocated, malloc-Allocated, free-block}
use threading_from_scratch.Malloc.Reuse.{here_block, later_block}
use threading_from_scratch.Realloc.{
  Memory, size_word, copied, calloc, zeroed, realloc, moved, int_max,
}
use threading_from_scratch.Realloc.Copy.{copy_bytes_inside, zero_bytes_inside}
use threading_from_scratch.Realloc.Places.{two_blocks, replaced}

-- The size word of a used chunk exceeds every request: the flag is part of it.
copied-used : (word size : ℕ) → is_used word ≡ true → size ≤ largest → copied word size ≡ size
copied-used word size u h = ground arith

size_word-used :
    (lo hi p n : ℕ) (cs : List Chunk) (xs ys : List (ℕ × ℕ))
    → Tiles lo cs hi
    → blocks cs ≡ xs ++ (p, n) ∷ ys
    → is_used (size_word p cs) ≡ true
unfolding size_word
size_word-used lo hi p n [] [] ys t b = cc
size_word-used lo hi p n [] (x ∷ xs) ys t b = cc
size_word-used lo hi p n (c ∷ cs) xs ys t b = elim (Bool-cases (c.addr + header == p)) [
  | inl here ↦ rw here (here_block lo hi p n c cs xs ys t ((==_iff _ p).0 here) b).0
  | inr other ↦
      let (zs, later) = later_block p n c cs xs ys (λ e. cc ((==_iff _ p).1 e)) b in
      rw other (size_word-used (lo + header + bytes c.size) hi p n cs zs ys t.4 later)
]

module _ (k : Kernel) where
  -- Of a block that is in use, realloc to fewer than 2^31 bytes copies as many bytes as the new size,
  -- also where that is larger than the block.
  pub copied_size :
      (size p n : ℕ) (h : Heap) (xs ys : List (ℕ × ℕ))
      → size ≤ int_max
      → IsHeap k h
      → blocks h.chunks ≡ xs ++ (p, n) ∷ ys
      → copied (size_word p h.chunks) size ≡ size
  copied_size size p n h xs ys small (inl (z, e)) b = absurd (no_block p n h.chunks xs ys e b)
  copied_size size p n h xs ys small (inr (t, le)) b =
      copied-used (size_word p h.chunks) size
        (size_word-used k.base h.heap_limit p n h.chunks xs ys t b) (omega arith)

  IsHeap-Apart : (h : Heap) → IsHeap k h → Apart k.base (blocks h.chunks)
  IsHeap-Apart h (inl (z, e)) = rw e tt
  IsHeap-Apart h (inr (t, le)) = Tiles-Apart k.base h.heap_limit h.chunks t

  abbrev pub Zeroed : ℕ → Memory → Memory × Option ℕ → Type 0
  Zeroed n m (m', none) = (blocks m'.heap.chunks ≡ blocks m.heap.chunks) × (m'.byte ≡ m.byte)
  Zeroed n m (m', some p) =
      (xs : List (ℕ × ℕ)) × (ys : List (ℕ × ℕ)) × (l : ℕ) × (n ≤ l)
      × (blocks m.heap.chunks ≡ xs ++ ys)
      × (blocks m'.heap.chunks ≡ xs ++ (p, l) ∷ ys)
      × ((i : ℕ) → i < n → m'.byte (p + i) ≡ 0)

  zeroed-Zeroed :
      (n : ℕ) (m : Memory) (g : Heap × Option ℕ)
      → Allocated k n m.heap g
      → Zeroed n m (zeroed n m g)
  unfolding zeroed
  zeroed-Zeroed n m (h, none) a = (a.1, refl)
  zeroed-Zeroed n m (h, some p) (is, xs, ys, l, le, old, new) =
      (xs, ys, l, le, old, new, λ i lt. zero_bytes_inside n p i m.byte lt)

  -- Of any heap, calloc either returns null and leaves the blocks and the memory as they are, or
  -- returns the address of a new block, changes no other, and its bytes are 0: of as many bytes as
  -- the product of the arguments modulo 2^64, if that is less than 2^31.
  pub calloc-Zeroed :
      (nmemb size : ℕ) (m : Memory)
      → nmemb * size % word64 ≤ int_max
      → IsHeap k m.heap
      → Zeroed (nmemb * size % word64) m (calloc k nmemb size m)
  unfolding calloc
  calloc-Zeroed nmemb size m small is =
      zeroed-Zeroed (nmemb * size % word64) m (malloc k (nmemb * size % word64) m.heap)
        (malloc-Allocated k (nmemb * size % word64) m.heap (omega arith) is)

  -- What realloc of the block `(p, n)` among others does: the block is gone, and the others are
  -- there; a new one has come, whose bytes are those of the old one, as far as both go.
  abbrev pub Moved : (p n size : ℕ) → (others : List (ℕ × ℕ)) → Memory → Memory → ℕ → Type 0
  Moved p n size others m m' q =
      (ls : List (ℕ × ℕ)) × (rs : List (ℕ × ℕ)) × (l : ℕ) × (size ≤ l)
      × (others ≡ ls ++ rs)
      × (blocks m'.heap.chunks ≡ ls ++ (q, l) ∷ rs)
      × ((i : ℕ) → i < n → i < size → m'.byte (q + i) ≡ m.byte (p + i))

  abbrev pub Reallocated :
      (p n size : ℕ) → (others : List (ℕ × ℕ)) → Memory → Option (Memory × Option ℕ) → Type 0
  Reallocated p n size others m none = ((malloc k size m.heap).1 ≡ none) × (size ≢ 0)
  Reallocated p n size others m (some (m', none)) =
      ((malloc k size m.heap).1 ≡ none)
      × (size ≡ 0)
      × (blocks m'.heap.chunks ≡ others)
      × (m'.byte ≡ m.byte)
  Reallocated p n size others m (some (m', some q)) =
      ((malloc k size m.heap).1 ≡ some q) × Moved p n size others m m' q

  moved-Reallocated :
      (p n size : ℕ) (m : Memory) (us vs : List (ℕ × ℕ)) (g : Heap × Option ℕ)
      → size ≤ int_max
      → blocks m.heap.chunks ≡ us ++ (p, n) ∷ vs
      → malloc k size m.heap ≡ g
      → Allocated k size m.heap g
      → Reallocated p n size (us ++ vs) m (moved p size m g)
  unfolding moved
  moved-Reallocated p n size m us vs (h, none) small b e a =
      let null = ap (λ (g : Heap × Option ℕ). g.1) e in
      let there = a.1 ∙ b in
      let count = copied_size size p n h us vs small a.0 there in
      elim (Bool-cases (size == 0)) [
        | inl zero_size ↦
            rw (count, zero_size)
              (null, (==_iff size 0).0 zero_size, (free-block k p n h us vs a.0 there).1, refl)
        | inr some_size ↦ rw (count, some_size) (null, λ z. ground (arith, some_size, z))
      ]
  moved-Reallocated p n size m us vs (h, some q) small b e (is, xs, ys, l, le, old, new) =
      let (zs, ws, with_both, ls, rs, without, others) =
        replaced (p, n) (q, l) xs ys us vs (sym old ∙ b) in
      let (is', freed) = free-block k p n h zs ws is (new ∙ with_both) in
      let count = copied_size size p n h zs ws small is (new ∙ with_both) in
      let clear =
        two_blocks k.base p n q l us vs xs ys (rw new at (IsHeap-Apart h is)) (sym old ∙ b) in
      (
        ap (λ (g : Heap × Option ℕ). g.1) e,
        (
          ls,
          rs,
          l,
          le,
          others,
          freed ∙ without,
          λ i in_old in_new.
              rw count (copy_bytes_inside size p q i m.byte in_new (omega (arith, clear, le))),
        ),
      )

  -- Of any heap with a block in use, realloc of that block to fewer than 2^31 bytes: where malloc
  -- returns null for the size, realloc writes through the null pointer if the size is not 0; if it is
  -- 0, realloc returns null, the block is gone, all others are as they were and no byte has changed.
  -- Where malloc returns a pointer, that is what realloc returns: the block is gone, a new one of at
  -- least the size has come there, all others are as they were, and the bytes of the new block are
  -- those of the old one up to the shorter length.
  pub realloc-Reallocated :
      (p n size : ℕ) (m : Memory) (us vs : List (ℕ × ℕ))
      → size ≤ int_max
      → IsHeap k m.heap
      → blocks m.heap.chunks ≡ us ++ (p, n) ∷ vs
      → Reallocated p n size (us ++ vs) m (realloc k p size m)
  unfolding realloc
  realloc-Reallocated p n size m us vs small is b =
      moved-Reallocated p n size m us vs (malloc k size m.heap) small b refl
        (malloc-Allocated k size m.heap (omega arith) is)
