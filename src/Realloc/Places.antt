-- ===== src/Realloc/Places.antt =====
-- tb-utils.c, lines 345-356: where a block stands among the blocks.
use mathlib.Core.Path.{ap₂}
use mathlib.Core.List.{append_assoc}
use threading_from_scratch.Prelude.{
  ℕ, ◌+◌, ◌≤◌, ◌≡◌, refl, sym, ap, ◌⊎◌, inl, inr, List, [], ◌∷◌, ◌++◌, arith,
}
use threading_from_scratch.Malloc.Blocks.{Apart, Apart-start, tail_eq}

-- Of two blocks one lies behind the other.
pub two_blocks :
    (lo p n q m : ℕ) (us vs xs ys : List (ℕ × ℕ))
    → Apart lo (xs ++ (q, m) ∷ ys)
    → xs ++ ys ≡ us ++ (p, n) ∷ vs
    → (p + n ≤ q) ⊎ (q + m ≤ p)
two_blocks lo p n q m us vs [] ys a e =
    inr (let late = Apart-start (q + m) p n us vs (rw e at a.1) in omega (arith, late))
two_blocks lo p n q m [] vs ((x, l) ∷ xs) ys a e =
    let same = (tail_eq _ _ _ _ e).0 in
    let late = Apart-start (x + l) q m xs ys a.1 in
    inl (omega (arith, late, ap (λ (b : ℕ × ℕ). b.0) same, ap (λ (b : ℕ × ℕ). b.1) same))
two_blocks lo p n q m (u ∷ us) vs ((x, l) ∷ xs) ys a e =
    two_blocks (x + l) p n q m us vs xs ys a.1 (tail_eq _ _ _ _ e).1

-- Where a block stands in a list that is put together from two.
split_at :
    (b : ℕ × ℕ) (xs ys us vs : List (ℕ × ℕ))
    → xs ++ ys ≡ us ++ b ∷ vs
    → ((w : List (ℕ × ℕ)) × (xs ≡ us ++ b ∷ w) × (vs ≡ w ++ ys))
      ⊎ ((w : List (ℕ × ℕ)) × (us ≡ xs ++ w) × (ys ≡ w ++ b ∷ vs))
split_at b [] ys us vs e = inr (us, refl, e)
split_at b (x ∷ xs) ys [] vs e =
    let (same, rest) = tail_eq _ _ _ _ e in inl (xs, ap (λ h. h ∷ xs) same, sym rest)
split_at b (x ∷ xs) ys (u ∷ us) vs e =
    let (same, rest) = tail_eq _ _ _ _ e in
    elim (split_at b xs ys us vs rest) [
      | inl (w, there, behind) ↦ inl (w, ap₂ (λ h t. h ∷ t) same there, behind)
      | inr (w, before, here) ↦ inr (w, ap₂ (λ h t. h ∷ t) (sym same) before, here)
    ]

-- With a block put in and another one taken out.
pub replaced :
    (b c : ℕ × ℕ) (xs ys us vs : List (ℕ × ℕ))
    → xs ++ ys ≡ us ++ b ∷ vs
    → (zs : List (ℕ × ℕ)) × (ws : List (ℕ × ℕ)) × (xs ++ c ∷ ys ≡ zs ++ b ∷ ws)
      × (ls : List (ℕ × ℕ)) × (rs : List (ℕ × ℕ)) × (zs ++ ws ≡ ls ++ c ∷ rs)
      × (us ++ vs ≡ ls ++ rs)
replaced b c xs ys us vs e = elim (split_at b xs ys us vs e) [
  | inl (w, there, behind) ↦ (
    us,
    w ++ c ∷ ys,
    rw there (append_assoc us (b ∷ w) (c ∷ ys)),
    us ++ w,
    ys,
    sym (append_assoc us w (c ∷ ys)),
    rw behind (sym (append_assoc us w ys)),
  )
  | inr (w, before, here) ↦ (
    xs ++ c ∷ w,
    vs,
    rw here (sym (append_assoc xs (c ∷ w) (b ∷ vs))),
    xs,
    w ++ vs,
    append_assoc xs (c ∷ w) vs,
    rw before (append_assoc xs w vs),
  )
]
