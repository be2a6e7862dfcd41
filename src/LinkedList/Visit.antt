-- ===== src/LinkedList/Visit.antt =====
-- tb-utils.c, lines 431-473: searching a list, going over it, and clearing it.
use threading_from_scratch.Prelude.{
  ℕ, zero, suc, ◌<◌, ◌≡◌, ◌≢◌, refl, ◌∙◌, Bool, true, false, ◌==◌, some, List, [], ◌∷◌, length, map,
  arith,
}
use threading_from_scratch.LinkedList.{
  Store, set_next, for_each_from, list_for_each_elem, list_clear,
}
use threading_from_scratch.LinkedList.{list_find_elem, list_find_elem_func}
use threading_from_scratch.LinkedList.Walk.{first_with, find-first}
use threading_from_scratch.LinkedList.Links.{has, Links, IsList}

-- The elements of nodes.
abbrev pub elements : Store → List ℕ → List ℕ
elements s xs = map (λ x. (s x).element) xs

for_each_from-elements :
    (rounds a : ℕ) (s : Store) (xs : List ℕ)
    → Links s a xs
    → length xs < rounds
    → for_each_from rounds (s a).next s ≡ some (elements s xs)
unfolding for_each_from
for_each_from-elements zero a s xs l lt = absurd (omega arith)
for_each_from-elements (suc r) a s [] l lt = rw l
for_each_from-elements (suc r) a s (x ∷ xs) l lt =
    ground (arith, l, for_each_from-elements r x s xs l.3 (omega arith))

-- A list whose `prev` links may be broken: list_clear goes by `next` alone.
abbrev Next : Store → ℕ → List ℕ → Type 0
Next s a [] = (s a).next ≡ 0
Next s a (x ∷ xs) = ((s a).next ≡ x) × (x ≢ 0) × Next s x xs

Links-Next : (s : Store) (a : ℕ) (xs : List ℕ) → Links s a xs → Next s a xs
Links-Next s a [] l = l
Links-Next s a (x ∷ xs) l = (l.0, l.1, Links-Next s x xs l.3)

Next-frame :
    (s t : Store) (a : ℕ) (xs : List ℕ)
    → ((b : ℕ) → has b (a ∷ xs) ≡ true → (t b).next ≡ (s b).next)
    → Next s a xs
    → Next t a xs
Next-frame s t a [] same n = ground (arith, same a)
Next-frame s t a (x ∷ xs) same n =
    (ground (arith, same a), n.1, Next-frame s t x xs (λ b h. same b (ground (arith, h))) n.2)

Next-skip :
    (s : Store) (a x : ℕ) (xs : List ℕ)
    → has a (x ∷ xs) ≡ false
    → Next s x xs
    → Next (set_next a (s x).next s) a xs
Next-skip s a x [] out n = ground (arith, n)
Next-skip s a x (y ∷ ys) out n = (
  ground (arith, n),
  n.1,
  Next-frame s (set_next a (s x).next s) y ys (λ b h. ground (arith, h, out)) n.2,
)

list_clear-freed :
    (rounds a : ℕ) (s : Store) (xs : List ℕ)
    → Next s a xs
    → has a xs ≡ false
    → length xs < rounds
    → (t : Store) × (list_clear rounds a s ≡ some (xs, t))
      × ((t a).next ≡ 0)
      × ((b : ℕ) → b ≢ a → t b ≡ s b)
unfolding list_clear
list_clear-freed zero a s xs n out lt = absurd (omega arith)
list_clear-freed (suc r) a s [] n out lt = (s, rw n, n, λ b d. refl)
list_clear-freed (suc r) a s (x ∷ xs) n out lt =
    let s' = set_next a (s x).next s in
    let (t, cleared, empty, same) =
      list_clear-freed r a s' xs (Next-skip s a x xs out n.2) (ground (arith, out)) (omega arith) in
    (t, ground (arith, n, cleared), empty, λ b d. same b d ∙ ground (arith, d))

for_each-clear :
    (rounds a : ℕ) (s : Store) (xs : List ℕ)
    → IsList s a xs
    → length xs < rounds
    → (list_for_each_elem rounds a s ≡ some (elements s xs))
      × ((t : Store) × (list_clear rounds a s ≡ some (xs, t))
          × IsList t a []
          × ((b : ℕ) → b ≢ a → t b ≡ s b))
unfolding list_for_each_elem
for_each-clear rounds a s xs is lt =
    let (t, cleared, empty, same) =
      list_clear-freed rounds a s xs (Links-Next s a xs is.0) is.1.0 lt in
    (for_each_from-elements rounds a s xs is.0 lt, (t, cleared, (empty, (refl, tt)), same))

-- With more rounds than a list has nodes, the four walks end: both searches at the first node whose
-- element is the one sought, or passes the test with it, and with null if there is none;
-- list_for_each_elem calls its function with the elements of all nodes in their order; and list_clear
-- frees all nodes in their order and leaves the list empty and every other node's memory as it was.
pub walks-end :
    (rounds a element : ℕ) (func : ℕ → ℕ → Bool) (s : Store) (xs : List ℕ)
    → IsList s a xs
    → length xs < rounds
    → (list_find_elem rounds a element s ≡ some (first_with (λ x. x == element) s xs))
      × (list_find_elem_func rounds a element func s ≡ some (first_with (func element) s xs))
      × (list_for_each_elem rounds a s ≡ some (elements s xs))
      × ((t : Store) × (list_clear rounds a s ≡ some (xs, t))
          × IsList t a []
          × ((b : ℕ) → b ≢ a → t b ≡ s b))
walks-end rounds a element func s xs is lt =
    let (found, found_func) = find-first s rounds a element func xs is lt in
    let (visited, cleared) = for_each-clear rounds a s xs is lt in
    (found, found_func, visited, cleared)
