-- ===== src/Malloc/History.antt =====
-- tb-utils.c, lines 216-344: the heap after any sequence of calls.
use threading_from_scratch.Prelude.{
  ℕ, ◌+◌, ◌%◌, ◌≤◌, ◌≡◌, refl, inl, inr, Bool-cases, Option, none, some, List, [], ◌∷◌, ◌++◌, arith,
}
use threading_from_scratch.Malloc.{Chunk, Heap, Kernel, header, malloc, free, is_used}
use threading_from_scratch.Malloc.Sizes.{largest}
use threading_from_scratch.Malloc.Tiles.{bytes, Tiles}
use threading_from_scratch.Malloc.Grow.{IsHeap}
use threading_from_scratch.Malloc.Blocks.{blocks, Apart, Tiles-Apart}
use threading_from_scratch.Malloc.Correct.{Allocated, malloc-Allocated, free-block}

pub data Call : Type 0 where
  alloc : (size : ℕ) → Call
  release : (p : ℕ) → Call

-- Before the first call.
abbrev pub no_heap : Heap
no_heap = record { chunks = []; heap_limit = 0 }

-- Every block starts at a multiple of 8.
abbrev pub Aligned : List (ℕ × ℕ) → Type 0
Aligned [] = Unit {0}
Aligned ((p, n) ∷ bs) = (p % 8 ≡ 0) × Aligned bs

Tiles-Aligned : (lo hi : ℕ) (cs : List Chunk) → lo % 8 ≡ 0 → Tiles lo cs hi → Aligned (blocks cs)
Tiles-Aligned lo hi [] a t = tt
Tiles-Aligned lo hi (c ∷ cs) a t =
    let rest = Tiles-Aligned (lo + header + bytes c.size) hi cs (omega (arith, a, t.3)) t.4 in
    elim (Bool-cases (is_used c.size)) [
      | inl used ↦ rw used (omega (arith, a, t.0), rest)
      | inr unused ↦ rw unused rest
    ]

module _ (k : Kernel) where
  unfoldable pub call : Call → Heap → Heap
  call (alloc size) h = (malloc k size h).0
  call (release p) h = free p h

  unfoldable pub calls : List Call → Heap → Heap
  unfolding call
  calls [] h = h
  calls (c ∷ cs) h = calls cs (call c h)

  -- A request is of at most 2^61 bytes, and only a block that malloc gave is given back, once.
  abbrev pub IsFair : Call → Heap → Type 0
  IsFair (alloc size) h = size ≤ largest
  IsFair (release p) h =
      (xs : List (ℕ × ℕ)) × (n : ℕ) × (ys : List (ℕ × ℕ)) × (blocks h.chunks ≡ xs ++ (p, n) ∷ ys)

  abbrev pub AllFair : List Call → Heap → Type 0
  AllFair [] h = Unit {0}
  AllFair (c ∷ cs) h = IsFair c h × AllFair cs (call c h)

  Allocated-IsHeap :
      (size : ℕ) (h : Heap) (r : Heap × Option ℕ) → Allocated k size h r → IsHeap k r.0
  Allocated-IsHeap size h (h', none) a = a.0
  Allocated-IsHeap size h (h', some p) a = a.0

  call-IsHeap : (c : Call) (h : Heap) → IsFair c h → IsHeap k h → IsHeap k (call c h)
  unfolding call
  call-IsHeap (alloc size) h fair is =
      Allocated-IsHeap size h (malloc k size h) (malloc-Allocated k size h fair is)
  call-IsHeap (release p) h (xs, n, ys, b) is = (free-block k p n h xs ys is b).0

  calls-IsHeap : (cs : List Call) (h : Heap) → AllFair cs h → IsHeap k h → IsHeap k (calls cs h)
  unfolding calls
  calls-IsHeap [] h fair is = is
  calls-IsHeap (c ∷ cs) h fair is = calls-IsHeap cs (call c h) fair.1 (call-IsHeap c h fair.0 is)

  is_sound :
      (h : Heap)
      → k.base % 8 ≡ 0
      → IsHeap k h
      → Apart k.base (blocks h.chunks) × Aligned (blocks h.chunks)
  is_sound h a (inl (z, e)) = rw e (tt, tt)
  is_sound h a (inr (t, le)) =
      (Tiles-Apart k.base h.heap_limit h.chunks t, Tiles-Aligned k.base h.heap_limit h.chunks a t)

  -- After any sequence of calls, of requests up to 2^61 bytes and of frees of blocks that are in
  -- use, the blocks in use do not overlap, are at least a header apart, and start at multiples of 8
  -- if the first break does.
  pub blocks-Apart :
      (cs : List Call)
      → k.base % 8 ≡ 0
      → AllFair cs no_heap
      → Apart k.base (blocks (calls cs no_heap).chunks) × Aligned (blocks (calls cs no_heap).chunks)
  blocks-Apart cs a fair =
      is_sound (calls cs no_heap) a (calls-IsHeap cs no_heap fair (inl (refl, refl)))
