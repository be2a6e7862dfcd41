-- ===== src/LinkedList/Links.antt =====
-- tb-utils.c, lines 378-473: the sequence of nodes that a store holds behind a node.
use threading_from_scratch.Prelude.{
  ℕ, ◌≡◌, ◌≢◌, ◌⊎◌, refl, inl, inr, Bool, true, false, ◌||◌, ◌==◌, List, [], ◌∷◌, ◌++◌, arith,
}
use threading_from_scratch.LinkedList.{Store}

abbrev pub has : ℕ → List ℕ → Bool
has a [] = false
has a (x ∷ xs) = a == x || has a xs

abbrev pub IsDistinct : List ℕ → Type 0
IsDistinct [] = Unit {0}
IsDistinct (x ∷ xs) = (has x xs ≡ false) × IsDistinct xs

-- Behind the node `a` come the nodes `xs`, each linked both ways, and then null.
abbrev pub Links : Store → ℕ → List ℕ → Type 0
Links s a [] = (s a).next ≡ 0
Links s a (x ∷ xs) = ((s a).next ≡ x) × (x ≢ 0) × ((s x).prev ≡ a) × Links s x xs

-- The list at `a` holds the nodes `xs`.
abbrev pub IsList : Store → ℕ → List ℕ → Type 0
IsList s a xs = Links s a xs × IsDistinct (a ∷ xs)

abbrev pub end : ℕ → List ℕ → ℕ
end a [] = a
end a (x ∷ xs) = end x xs

pub has-end : (a : ℕ) (xs : List ℕ) → has (end a xs) (a ∷ xs) ≡ true
has-end a [] = ground arith
has-end a (x ∷ xs) = ground (arith, has-end x xs)

pub has-append : (a : ℕ) (xs ys : List ℕ) → has a (xs ++ ys) ≡ (has a xs || has a ys)
has-append a [] ys = refl
has-append a (x ∷ xs) ys = ground (arith, has-append a xs ys)

-- A store that has the same links at these nodes holds the same sequence.
pub frame :
    (s t : Store) (a : ℕ) (xs : List ℕ)
    → ((b : ℕ) → has b (a ∷ xs) ≡ true → (t b).next ≡ (s b).next)
    → ((b : ℕ) → has b xs ≡ true → (t b).prev ≡ (s b).prev)
    → Links s a xs
    → Links t a xs
frame s t a [] same_next same_prev l = ground (arith, same_next a)
frame s t a (x ∷ xs) same_next same_prev l = (
  ground (arith, same_next a),
  l.1,
  ground (arith, same_prev x),
  frame s t x xs (λ b h. same_next b (ground (arith, h))) (λ b h. same_prev b (ground (arith, h)))
      l.3,
)

-- The first node, or null.
abbrev pub first : List ℕ → ℕ
first [] = 0
first (x ∷ xs) = x

pub has-first : (xs : List ℕ) → (first xs ≡ 0) ⊎ (has (first xs) xs ≡ true)
has-first [] = inl refl
has-first (x ∷ xs) = inr (ground arith)

pub next-end :
    (s : Store) (a : ℕ) (xs ys : List ℕ) → Links s a (xs ++ ys) → (s (end a xs)).next ≡ first ys
next-end s a [] [] l = l
next-end s a [] (y ∷ ys) l = l.0
next-end s a (x ∷ xs) ys l = next-end s x xs ys l.3
