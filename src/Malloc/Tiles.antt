-- ===== src/Malloc/Tiles.antt =====
-- tb-utils.c, lines 219-226: the chunks lie one behind the other, from the first break that the
-- kernel gave to the heap limit.
use threading_from_scratch.Prelude.{
  ℕ, ◌+◌, ◌%◌, ◌^◌, ◌≤◌, ◌<◌, ◌≡◌, refl, true, List, [], ◌∷◌, ◌++◌, arith,
}
use threading_from_scratch.Malloc.{Chunk, header, fits, carve, memchunk_used}

-- The size of a chunk, without the flag.
abbrev pub bytes : ℕ → ℕ
bytes size = size % memchunk_used

abbrev pub Tiles : ℕ → List Chunk → ℕ → Type 0
Tiles lo [] hi = lo ≡ hi
Tiles lo (c ∷ cs) hi =
    (c.addr ≡ lo)
    × (c.size < 2 ^ 63)
    × (16 ≤ bytes c.size)
    × (bytes c.size % 8 ≡ 0)
    × Tiles (lo + header + bytes c.size) cs hi

pub Tiles-append :
    (lo mid hi : ℕ) (xs ys : List Chunk)
    → Tiles lo xs mid
    → Tiles mid ys hi
    → Tiles lo (xs ++ ys) hi
Tiles-append lo mid hi [] ys p q = ground (arith, p, q)
Tiles-append lo mid hi (c ∷ xs) ys p q =
    (p.0, p.1, p.2, p.3, Tiles-append (lo + header + bytes c.size) mid hi xs ys p.4 q)

pub Tiles-split :
    (lo hi : ℕ) (xs ys : List Chunk)
    → Tiles lo (xs ++ ys) hi
    → (mid : ℕ) × Tiles lo xs mid × Tiles mid ys hi
Tiles-split lo hi [] ys p = (lo, refl, p)
Tiles-split lo hi (c ∷ xs) ys p =
    let (mid, l, r) = Tiles-split (lo + header + bytes c.size) hi xs ys p.4 in
    (mid, (p.0, p.1, p.2, p.3, l), r)

-- A carved chunk takes the place of the whole one.
pub Tiles-carve :
    (a lo hi : ℕ) (c : Chunk)
    → 16 ≤ a
    → a % 8 ≡ 0
    → fits a c ≡ true
    → Tiles lo (c ∷ []) hi
    → Tiles lo (carve a c) hi
unfolding carve
Tiles-carve a lo hi c big whole f p = ground arith
