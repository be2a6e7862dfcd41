-- ===== src/LinkedList/Walk.antt =====
-- tb-utils.c, lines 396-452: where the walks stop.
use threading_from_scratch.Prelude.{
  ℕ, zero, suc, ◌<◌, ◌≡◌, refl, sym, subst, ap, ◌∙◌, inl, inr, Bool, ◌==◌, if◌then◌else◌,
  Bool-cases, some, List, [], ◌∷◌, ◌++◌, length, arith,
}
use threading_from_scratch.LinkedList.{Store, walk, list_find_elem, list_find_elem_func, next_of}
use threading_from_scratch.LinkedList.Links.{Links, IsList, end, first, next-end}

module _ (stop : ℕ → Bool) (s : Store) where
  -- The nodes before the first one to stop at, and the others.
  abbrev pub before : List ℕ → List ℕ
  before [] = []
  before (x ∷ xs) = if stop (s x).element then [] else x ∷ before xs

  abbrev pub from : List ℕ → List ℕ
  from [] = []
  from (x ∷ xs) = if stop (s x).element then x ∷ xs else from xs

  pub before-from : (xs : List ℕ) → before xs ++ from xs ≡ xs
  before-from [] = refl
  before-from (x ∷ xs) = ground (arith, before-from xs)

  -- As many rounds as there are nodes, and one more, are enough.
  pub walk-end :
      (rounds a : ℕ) (xs : List ℕ)
      → Links s a xs
      → length xs < rounds
      → walk rounds stop s a ≡ some (end a (before xs))
  unfolding walk
  walk-end zero a xs l lt = absurd (omega arith)
  walk-end (suc r) a [] l lt = rw l
  walk-end (suc r) a (x ∷ xs) l lt = elim (Bool-cases (stop (s x).element)) [
    | inl here ↦ ground (arith, l, here)
    | inr later ↦ ground (arith, l, later, walk-end r x xs l.3 (omega arith))
  ]

-- The first node with an element that passes, or null.
abbrev pub first_with : (stop : ℕ → Bool) → Store → List ℕ → ℕ
first_with stop s [] = 0
first_with stop s (x ∷ xs) = if stop (s x).element then x else first_with stop s xs

first-from :
    (stop : ℕ → Bool) (s : Store) (xs : List ℕ) → first (from stop s xs) ≡ first_with stop s xs
first-from stop s [] = refl
first-from stop s (x ∷ xs) = ground (arith, first-from stop s xs)

found :
    (stop : ℕ → Bool) (s : Store) (rounds a : ℕ) (xs : List ℕ)
    → Links s a xs
    → length xs < rounds
    → next_of s (walk rounds stop s a) ≡ some (first_with stop s xs)
found stop s rounds a xs l lt =
    let there = subst (Links s a) (sym (before-from stop s xs)) l in
    rw (walk-end stop s rounds a xs l lt)
      (ap some (next-end s a (before stop s xs) (from stop s xs) there ∙ first-from stop s xs))

-- With more rounds than the list has nodes, both searches end, at the first node whose element is the
-- one that is sought, or passes the test with it, and with null if there is none.
pub find-first :
    (s : Store) (rounds a element : ℕ) (func : ℕ → ℕ → Bool) (xs : List ℕ)
    → IsList s a xs
    → length xs < rounds
    → (list_find_elem rounds a element s ≡ some (first_with (λ x. x == element) s xs))
      × (list_find_elem_func rounds a element func s ≡ some (first_with (func element) s xs))
unfolding list_find_elem list_find_elem_func
find-first s rounds a element func xs is lt =
    (found (λ x. x == element) s rounds a xs is.0 lt, found (func element) s rounds a xs is.0 lt)
