-- ===== src/Malloc.antt =====
-- tb-utils.c, lines 216-344: malloc, free and the allocator's chunks. The functions run between
-- tb_futex_lock and tb_futex_unlock of `memory_lock`, so each is one step.
pub mod Sizes
pub mod Tiles
pub mod Blocks
pub mod Grow
pub mod Correct
pub mod History
pub mod Reuse
mod Wrap
pub mod Tests
use threading_from_scratch.Prelude.{
  ℕ, ◌+◌, ◌-◌, ◌*◌, ◌/◌, ◌%◌, ◌^◌, ◌<◌, ◌≤◌, ◌≡◌, ◌⊎◌, Bool, true, false, not, ◌&&◌, ◌==◌, ltb, leb,
  if◌then◌else◌, Option, none, some, List, [], ◌∷◌, ◌++◌,
}

abbrev pub word64 : ℕ
word64 = 2 ^ 64

-- MEMCHUNK_USED
abbrev pub memchunk_used : ℕ
memchunk_used = 2 ^ 62

-- sizeof(memchunk_t)
abbrev pub header : ℕ
header = 16

-- EXEC_PAGESIZE of asm-generic/param.h
abbrev pub exec_pagesize : ℕ
exec_pagesize = 4096

-- A `memchunk_t` at its address. Its `next` is the address of the chunk behind it in the list.
pub record Chunk : Type 0 where
  pub addr : ℕ
  pub size : ℕ

-- `head`, as the list that starts there, and `heap_limit`, which is 0 until it is known.
pub record Heap : Type 0 where
  pub chunks : List Chunk
  pub heap_limit : ℕ

-- `size & MEMCHUNK_USED`, `size |= MEMCHUNK_USED` and `size &= ~MEMCHUNK_USED`
abbrev pub is_used : ℕ → Bool
is_used size = size / memchunk_used % 2 == 1

abbrev pub mark_used : ℕ → ℕ
mark_used size = if is_used size then size else size + memchunk_used

abbrev pub mark_free : ℕ → ℕ
mark_free size = if is_used size then size - memchunk_used else size

-- Lines 241-243.
pub alloc_size : ℕ → ℕ
alloc_size size =
    let a = ((size + word64 - 1) % word64 / 8 * 8 + 8) % word64 in if ltb a 16 then 16 else a

-- Line 253.
abbrev pub fits : ℕ → Chunk → Bool
fits a c = not (is_used c.size) && leb a c.size

-- The chunks before the found one, the found one, and those behind it.
pub record Found : Type 0 where
  pub before : List Chunk
  pub chunk : Chunk
  pub behind : List Chunk

abbrev pub skip : Chunk → Option Found → Option Found
skip c none = none
skip c (some r) = some (record r { before = c ∷ r.before })

-- Lines 248-255: the first chunk that is unused and big enough.
pub find_chunk : ℕ → List Chunk → Option Found
find_chunk a [] = none
find_chunk a (c ∷ cs) =
    let rest = find_chunk a cs in
    if fits a c then some (record { before = []; chunk = c; behind = cs }) else skip c rest

-- Lines 297-308: split the chunk if it is big enough, and mark it used.
pub carve : ℕ → Chunk → List Chunk
carve a c =
    if ltb ((a + header + 16) % word64) c.size
    then (record { addr = c.addr; size = mark_used a })
      ∷ (record { addr = c.addr + header + a; size = c.size - a - header })
      ∷ []
    else (record c { size = mark_used c.size }) ∷ []

-- Lines 273-275.
pub chunk_size : ℕ → ℕ
chunk_size size =
    ((size + header + word64 - 1) % word64 / exec_pagesize * exec_pagesize + exec_pagesize) % word64

-- brk(2), from the break that the process has and the one that it asks for: it answers with the
-- break that holds then, which is one of the two.
pub record Kernel : Type 0 where
  pub base : ℕ
  pub brk : ℕ → ℕ → ℕ
  pub base_known : 0 < base
  pub brk-zero : brk base 0 ≡ base
  pub brk_either : (now asked : ℕ) → (brk now asked ≡ asked) ⊎ (brk now asked ≡ now)
  -- User addresses end at 2^47.
  pub brk_below : (now asked : ℕ) → now ≤ 2 ^ 47 → brk now asked ≤ 2 ^ 47
  pub base_below : base ≤ 2 ^ 47

-- Lines 286-319, for a new chunk.
after_grow : ℕ → Heap × Option Chunk → Heap × Option ℕ
after_grow a (h, none) = (h, none)
after_grow a (h, some c) = (record h { chunks = h.chunks ++ carve a c }, some (c.addr + header))

-- Lines 293-319, for a chunk of the list.
take_found : ℕ → Heap → Option Found → Heap × Option ℕ → Heap × Option ℕ
take_found a h (some r) grown =
    (record h { chunks = r.before ++ (carve a r.chunk ++ r.behind) }, some (r.chunk.addr + header))
take_found a h none grown = grown

module _ (k : Kernel) where
  open k use {base, brk}

  -- Lines 267-268.
  pub known_limit : Heap → ℕ
  known_limit h = if h.heap_limit == 0 then brk base 0 else h.heap_limit

  -- Lines 267-291: the chunk that the kernel gives, if it gives one.
  pub grow : ℕ → Heap → Heap × Option Chunk
  grow size h =
      let limit = known_limit h in
      let new_limit = brk limit ((limit + chunk_size size) % word64) in
      let given = (new_limit + word64 - limit) % word64 in
      if limit == new_limit then (record h { heap_limit = limit }, none) else (
        record h { heap_limit = new_limit },
        some (record { addr = limit; size = (given + word64 - header) % word64 }),
      )

  -- The address, or `none` for the null pointer.
  pub malloc : ℕ → Heap → Heap × Option ℕ
  unfolding take_found after_grow
  malloc size h =
      let a = alloc_size size in take_found a h (find_chunk a h.chunks) (after_grow a (grow size h))

pub free_chunk : ℕ → List Chunk → List Chunk
free_chunk p [] = []
free_chunk p (c ∷ cs) =
    if c.addr + header == p
    then (record c { size = mark_free c.size }) ∷ cs
    else c ∷ free_chunk p cs

-- Of a pointer that malloc has not given the code makes an arbitrary write; here it is passed over.
pub free : ℕ → Heap → Heap
unfolding free_chunk
free p h = if p == 0 then h else record h { chunks = free_chunk p h.chunks }
