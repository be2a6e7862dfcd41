-- ===== src/Realloc.antt =====
-- tb-utils.c, lines 328-378: calloc, realloc and tb_heap_state, over the chunks and the bytes behind
-- them.
pub mod Copy
mod Places
mod Correct
mod Tests
use threading_from_scratch.Prelude.{
  ℕ,
  zero,
  suc,
  ◌+◌,
  ◌-◌,
  ◌*◌,
  ◌%◌,
  ◌^◌,
  Bool,
  ◌==◌,
  ltb,
  if◌then◌else◌,
  Option,
  none,
  some,
  List,
  [],
  ◌∷◌,
  Threads.{put},
}
use threading_from_scratch.Malloc.{Chunk, Heap, Kernel, header, word64, is_used, malloc, free}

-- The heap, and what a byte of memory holds.
pub record Memory : Type 0 where
  pub heap : Heap
  pub byte : ℕ → ℕ

-- The most rounds of a loop whose counter is an `int`.
abbrev pub int_max : ℕ
int_max = 2 ^ 31 - 1

-- for(int i = 0; i < min; ++i, *d++ = *s++);
pub copy_bytes : ℕ → ℕ → ℕ → (ℕ → ℕ) → ℕ → ℕ
copy_bytes zero s d byte = byte
copy_bytes (suc r) s d byte = copy_bytes r (s + 1) (d + 1) (put byte d (byte s))

-- for(int i = 0; i < alloc_size; ++i, *cptr++ = 0);
pub zero_bytes : ℕ → ℕ → (ℕ → ℕ) → ℕ → ℕ
zero_bytes zero d byte = byte
zero_bytes (suc r) d byte = zero_bytes r (d + 1) (put byte d 0)

-- The `size` word of the chunk whose bytes start at `p`; 0 stands for what else is there.
pub size_word : ℕ → List Chunk → ℕ
size_word p [] = 0
size_word p (c ∷ cs) = let rest = size_word p cs in if c.addr + header == p then c.size else rest

-- `min` of line 351
abbrev pub copied : ℕ → ℕ → ℕ
copied word size = if ltb size word then size else word

-- Lines 334-339.
zeroed : ℕ → Memory → Heap × Option ℕ → Memory × Option ℕ
zeroed n m (h, none) = (record m { heap = h }, none)
zeroed n m (h, some p) = (record { heap = h; byte = zero_bytes n p m.byte }, some p)

-- Lines 351-355.
moved : ℕ → ℕ → Memory → Heap × Option ℕ → Option (Memory × Option ℕ)
moved p size m (h, none) =
    if copied (size_word p h.chunks) size == 0
    then some (record m { heap = free p h }, none)
    else none
moved p size m (h, some q) =
    let n = copied (size_word p h.chunks) size in
    some (record { heap = free p h; byte = copy_bytes n p q m.byte }, some q)

module _ (k : Kernel) where
  pub calloc : ℕ → ℕ → Memory → Memory × Option ℕ
  unfolding zeroed
  calloc nmemb size m = let alloc = nmemb * size % word64 in zeroed alloc m (malloc k alloc m.heap)

  -- The new pointer, which is null where malloc returns null and nothing is copied; or `none` where
  -- malloc returns null and the code writes through that.
  pub realloc : ℕ → ℕ → Memory → Option (Memory × Option ℕ)
  unfolding moved
  realloc p size m = moved p size m (malloc k size m.heap)

-- tb_heap_state: the numbers of chunks, and of those that are used.
pub tb_heap_state : List Chunk → ℕ × ℕ
tb_heap_state [] = (0, 0)
tb_heap_state (c ∷ cs) =
    let (total, allocated) = tb_heap_state cs in
    (total + 1, if is_used c.size then allocated + 1 else allocated)
