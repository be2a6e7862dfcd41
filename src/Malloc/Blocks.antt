-- ===== src/Malloc/Blocks.antt =====
-- tb-utils.c, lines 219-344: the blocks that malloc has given and free has not taken back, which is
-- all that a caller sees of the heap.
use threading_from_scratch.Prelude.{
  ◌%◌, ℕ, ◌+◌, ◌≤◌, ◌<◌, ◌≡◌, refl, ap, true, false, ltb, ◌==◌, ==_iff, if◌then◌else◌, Bool-cases,
  inl, inr, Option, none, some, List, [], ◌∷◌, ◌++◌, arith,
}
use threading_from_scratch.Malloc.{
  word64, Chunk, Found, is_used, mark_free, header, fits, skip, find_chunk, carve, free_chunk,
  memchunk_used,
}
use threading_from_scratch.Malloc.Tiles.{bytes, Tiles}

-- A block is the address that the caller has, and its length.
abbrev pub blocks : List Chunk → List (ℕ × ℕ)
blocks [] = []
blocks (c ∷ cs) = if is_used c.size then (c.addr + header, bytes c.size) ∷ blocks cs else blocks cs

-- Blocks in the order of their addresses, a header apart from each other and from `lo`.
abbrev pub Apart : ℕ → List (ℕ × ℕ) → Type 0
Apart lo [] = Unit {0}
Apart lo ((p, n) ∷ bs) = (lo + header ≤ p) × Apart (p + n) bs

Apart-mono : (lo lo' : ℕ) (bs : List (ℕ × ℕ)) → lo' ≤ lo → Apart lo bs → Apart lo' bs
Apart-mono lo lo' [] le a = tt
Apart-mono lo lo' ((p, n) ∷ bs) le a = (omega (arith, a.0), a.1)

pub Tiles-Apart : (lo hi : ℕ) (cs : List Chunk) → Tiles lo cs hi → Apart lo (blocks cs)
Tiles-Apart lo hi [] t = tt
Tiles-Apart lo hi (c ∷ cs) t =
    let rest = Tiles-Apart (lo + header + bytes c.size) hi cs t.4 in
    elim (Bool-cases (is_used c.size)) [
      | inl used ↦ rw used (
        omega (arith, t.0),
        Apart-mono (lo + header + bytes c.size) (c.addr + header + bytes c.size) (blocks cs)
            (omega (arith, t.0)) rest,
      )
      | inr unused ↦
          rw unused (Apart-mono (lo + header + bytes c.size) lo (blocks cs) (omega arith) rest)
    ]

pub blocks-append : (xs ys : List Chunk) → blocks (xs ++ ys) ≡ blocks xs ++ blocks ys
blocks-append [] ys = refl
blocks-append (c ∷ xs) ys = ground (arith, blocks-append xs ys)

skip-eq :
    (c : Chunk) (o : Option Found) (r : Found)
    → skip c o ≡ some r
    → (r0 : Found) × (o ≡ some r0) × (r ≡ record r0 { before = c ∷ r0.before })
skip-eq c none r h = cc
skip-eq c (some r0) r h = (r0, refl, ground arith)

-- The search takes the list apart at a chunk that fits.
pub find_chunk-eq :
    (a : ℕ) (cs : List Chunk) (r : Found)
    → find_chunk a cs ≡ some r
    → (cs ≡ r.before ++ r.chunk ∷ r.behind) × (fits a r.chunk ≡ true)
unfolding find_chunk
find_chunk-eq a [] r h = cc
find_chunk-eq a (c ∷ cs) r h = elim (Bool-cases (fits a c)) [
  | inl fit ↦
      let e : some (record { before = []; chunk = c; behind = cs }) ≡ some r = rw fit at h in
      ground (arith, fit, e)
  | inr no_fit ↦
      let (r0, found, e) = skip-eq c (find_chunk a cs) r (rw no_fit at h) in
      let (split, fit) = find_chunk-eq a cs r0 found in rw e (ap (λ l. c ∷ l) split, fit)
]

-- A carved chunk is one block of at least the size asked for.
pub blocks-carve :
    (a lo hi : ℕ) (c : Chunk)
    → a < memchunk_used
    → fits a c ≡ true
    → Tiles lo (c ∷ []) hi
    → (n : ℕ) × (a ≤ n) × (blocks (carve a c) ≡ (c.addr + header, n) ∷ [])
unfolding carve
blocks-carve a lo hi c small f t = elim (Bool-cases (ltb ((a + header + 16) % word64) c.size)) [
  | inl split ↦ (a, omega arith, rw split (ground arith))
  | inr whole ↦ (c.size, ground arith, rw whole (ground arith))
]

-- A block lies behind the start of the blocks that it is among.
pub Apart-start :
    (lo p n : ℕ) (xs ys : List (ℕ × ℕ)) → Apart lo (xs ++ (p, n) ∷ ys) → lo + header ≤ p
Apart-start lo p n [] ys a = a.0
Apart-start lo p n ((q, m) ∷ xs) ys a = omega (arith, a.0, Apart-start (q + m) p n xs ys a.1)

-- The tail of the chunks has no block at the address of the first one's.
pub not_later :
    (lo hi p n : ℕ) (c : Chunk) (cs : List Chunk) (xs ys : List (ℕ × ℕ))
    → Tiles lo (c ∷ cs) hi
    → c.addr + header ≡ p
    → blocks cs ≡ xs ++ (p, n) ∷ ys
    → ⊥
not_later lo hi p n c cs xs ys t e b =
    let apart = Tiles-Apart (lo + header + bytes c.size) hi cs t.4 in
    let late = Apart-start (lo + header + bytes c.size) p n xs ys (rw b at apart) in
    omega (arith, t.0, late)

pub tail_eq :
    (x y : ℕ × ℕ) (xs ys : List (ℕ × ℕ))
    → ◌≡◌ {A = List (ℕ × ℕ)} (x ∷ xs) (y ∷ ys)
    → (x ≡ y) × (xs ≡ ys)
tail_eq x y xs ys e = ground arith

-- The cases of `blocks-free_chunk`: the first chunk is the one that is freed, or another.
free_here :
    (lo hi p n : ℕ) (c : Chunk) (cs : List Chunk) (xs ys : List (ℕ × ℕ))
    → Tiles lo (c ∷ cs) hi
    → c.addr + header ≡ p
    → blocks (c ∷ cs) ≡ xs ++ (p, n) ∷ ys
    → blocks ((record c { size = mark_free c.size }) ∷ cs) ≡ xs ++ ys
free_here lo hi p n c cs xs ys t e b = elim (Bool-cases (is_used c.size)) [
  | inl used ↦
      let freed : is_used (mark_free c.size) ≡ false = ground (arith, t.1, used) in
      rw freed (by_blocks_before xs (rw used at b))
  | inr unused ↦ absurd (not_later lo hi p n c cs xs ys t e (rw unused at b))
]
  where
    by_blocks_before :
        (xs : List (ℕ × ℕ))
        → ◌≡◌ {A = List (ℕ × ℕ)} ((c.addr + header, bytes c.size) ∷ blocks cs) (xs ++ (p, n) ∷ ys)
        → blocks cs ≡ xs ++ ys
    by_blocks_before [] b = (tail_eq _ _ _ _ b).1
    by_blocks_before (x ∷ xs) b = absurd (not_later lo hi p n c cs xs ys t e (tail_eq _ _ _ _ b).1)

free_other :
    (p n : ℕ) (c : Chunk) (cs : List Chunk) (xs ys : List (ℕ × ℕ))
    → ((xs : List (ℕ × ℕ)) → blocks cs ≡ xs ++ (p, n) ∷ ys → blocks (free_chunk p cs) ≡ xs ++ ys)
    → (c.addr + header ≡ p → ⊥)
    → blocks (c ∷ cs) ≡ xs ++ (p, n) ∷ ys
    → blocks (c ∷ free_chunk p cs) ≡ xs ++ ys
free_other p n c cs xs ys ih d b = elim (Bool-cases (is_used c.size)) [
  | inl used ↦ rw used (kept_or_later xs (rw used at b))
  | inr unused ↦ rw unused (ih xs (rw unused at b))
]
  where
    kept_or_later :
        (xs : List (ℕ × ℕ))
        → ◌≡◌ {A = List (ℕ × ℕ)} ((c.addr + header, bytes c.size) ∷ blocks cs) (xs ++ (p, n) ∷ ys)
        → ◌≡◌ {A = List (ℕ × ℕ)}
            ((c.addr + header, bytes c.size) ∷ blocks (free_chunk p cs))
            (xs ++ ys)
    kept_or_later [] b = absurd (d (ap (λ (x : ℕ × ℕ). x.0) (tail_eq _ _ _ _ b).0))
    kept_or_later (x ∷ xs) b =
        let (e, r) = tail_eq _ _ _ _ b in let rest = ih xs r in ground (arith, e, rest)

-- Taking a block back removes it from the blocks, and leaves the others as they were.
pub blocks-free_chunk :
    (lo hi p n : ℕ) (cs : List Chunk) (xs ys : List (ℕ × ℕ))
    → Tiles lo cs hi
    → blocks cs ≡ xs ++ (p, n) ∷ ys
    → blocks (free_chunk p cs) ≡ xs ++ ys
unfolding free_chunk
blocks-free_chunk lo hi p n [] [] ys t b = cc
blocks-free_chunk lo hi p n [] (x ∷ xs) ys t b = cc
blocks-free_chunk lo hi p n (c ∷ cs) xs ys t b = elim (Bool-cases (c.addr + header == p)) [
  | inl here ↦ rw here (free_here lo hi p n c cs xs ys t ((==_iff _ p).0 here) b)
  | inr other ↦ rw other (
      free_other p n c cs xs ys
        (λ zs r. blocks-free_chunk (lo + header + bytes c.size) hi p n cs zs ys t.4 r)
        (λ e. cc ((==_iff _ p).1 e)) b)
]

pub Tiles-free_chunk :
    (lo hi p : ℕ) (cs : List Chunk) → Tiles lo cs hi → Tiles lo (free_chunk p cs) hi
unfolding free_chunk
Tiles-free_chunk lo hi p [] t = t
Tiles-free_chunk lo hi p (c ∷ cs) t =
    ground (arith, t.4, Tiles-free_chunk (lo + header + bytes c.size) hi p cs t.4)

pub no_block :
    (p n : ℕ) (cs : List Chunk) (xs ys : List (ℕ × ℕ)) → cs ≡ [] → blocks cs ≡ xs ++ (p, n) ∷ ys → ⊥
no_block p n [] [] ys e b = cc
no_block p n [] (x ∷ xs) ys e b = cc
no_block p n (c ∷ cs) xs ys e b = cc
