-- ===== src/LinkedList/Remove.antt =====
-- tb-utils.c, lines 421-429: taking a node out.
use threading_from_scratch.Prelude.{
  ℕ, ◌≡◌, ◌≢◌, refl, ◌∙◌, ◌⊎◌, inl, inr, false, List, [], ◌∷◌, ◌++◌, arith,
}
use threading_from_scratch.LinkedList.{Store, list_rm}
use threading_from_scratch.LinkedList.Links.{
  has, IsDistinct, Links, IsList, end, first, has-end, has-first, has-append, frame,
}

-- Of distinct nodes, one in the middle is none of the others.
middle :
    (node : ℕ) (xs ys : List ℕ)
    → IsDistinct (xs ++ node ∷ ys)
    → (has node xs ≡ false) × (has node ys ≡ false) × IsDistinct (xs ++ ys)
middle node [] ys d = (refl, d.0, d.1)
middle node (x ∷ xs) ys d =
    let m = middle node xs ys d.1 in
    (
      ground (arith, m.0, d.0, has-append x xs (node ∷ ys)),
      m.1,
      (ground (arith, d.0, has-append x xs (node ∷ ys), has-append x xs ys), m.2),
    )

module _ (s : Store) (node : ℕ) where
  list_rm-next : (b : ℕ) → b ≢ (s node).prev → (list_rm node s b).next ≡ (s b).next
  unfolding list_rm
  list_rm-next b d = ground arith

  list_rm-prev :
      (b : ℕ) → node ≢ (s node).prev → b ≢ (s node).next → (list_rm node s b).prev ≡ (s b).prev
  unfolding list_rm
  list_rm-prev b e d = ground arith

  list_rm-element : (b : ℕ) → (list_rm node s b).element ≡ (s b).element
  unfolding list_rm
  list_rm-element b = ground arith

  list_rm-at :
      node ≢ (s node).prev
      → ((list_rm node s (s node).prev).next ≡ (s node).next)
        × ((s node).next ≢ 0 → (list_rm node s (s node).next).prev ≡ (s node).prev)
  unfolding list_rm
  list_rm-at d = (ground arith, λ e. ground arith)

  list_rm-outside :
      (b : ℕ)
      → node ≢ (s node).prev
      → b ≢ (s node).prev
      → ((s node).next ≡ 0) ⊎ (b ≢ (s node).next)
      → list_rm node s b ≡ s b
  unfolding list_rm
  list_rm-outside b d e (inl f) = ground arith
  list_rm-outside b d e (inr f) = ground arith

  prev-end : (a : ℕ) (xs ys : List ℕ) → Links s a (xs ++ node ∷ ys) → (s node).prev ≡ end a xs
  prev-end a [] ys l = l.2
  prev-end a (x ∷ xs) ys l = prev-end x xs ys l.3

  next_of-node : (a : ℕ) (xs ys : List ℕ) → Links s a (xs ++ node ∷ ys) → (s node).next ≡ first ys
  next_of-node a [] [] l = l.3
  next_of-node a [] (y ∷ ys) l = l.3.0
  next_of-node a (x ∷ xs) ys l = next_of-node x xs ys l.3

  rm-Links :
      (a : ℕ) (xs ys : List ℕ)
      → Links s a (xs ++ node ∷ ys)
      → IsDistinct (a ∷ (xs ++ node ∷ ys))
      → Links (list_rm node s) a (xs ++ ys)
  rm-Links a [] [] l d = let w = list_rm-at (ground (arith, l, d)) in ground (arith, w.0, l)
  rm-Links a [] (y ∷ ys) l d =
      let away : node ≢ (s node).prev = ground (arith, l, d) in
      let w = list_rm-at away in
      (
        ground (arith, w.0, l),
        l.3.1,
        ground (arith, w.1, l),
        frame s (list_rm node s) y ys (λ b h. list_rm-next b (ground (arith, l, d, h)))
            (λ b h. list_rm-prev b away (ground (arith, l, d, h))) l.3.3,
      )
  rm-Links a (x ∷ xs) ys l d =
      let p = prev-end a (x ∷ xs) ys l in
      let inside = has-end x xs in
      let c = end x xs in
      (
        list_rm-next a (ground (arith, p, inside, has-append a (x ∷ xs) (node ∷ ys), d)) ∙ l.0,
        l.1,
        list_rm-prev x (ground (arith, p, inside, (middle node (x ∷ xs) ys d.1).0)) (
              ground (
                arith,
                next_of-node a (x ∷ xs) ys l,
                has-first ys,
                has-append x xs (node ∷ ys),
                d,
                l,
              ))
            ∙ l.2,
        rm-Links x xs ys l.3 d.1,
      )

-- list_rm of a node in the middle of a list leaves the list without it: all elements are as before,
-- and so is every node that is not in the list, and the node itself.
pub list_rm-Removed :
    (s : Store) (a node : ℕ) (xs ys : List ℕ)
    → IsList s a (xs ++ node ∷ ys)
    → IsList (list_rm node s) a (xs ++ ys)
      × ((b : ℕ) → (list_rm node s b).element ≡ (s b).element)
      × ((b : ℕ) → has b (a ∷ (xs ++ ys)) ≡ false → list_rm node s b ≡ s b)
list_rm-Removed s a node xs ys is =
    let m = middle node (a ∷ xs) ys is.1 in
    let p = prev-end s node a xs ys is.0 in
    let n = next_of-node s node a xs ys is.0 in
    let inside = has-end a xs in
    (
      (rm-Links s node a xs ys is.0 is.1, m.2),
      list_rm-element s node,
      λ b out.
          list_rm-outside s node b (ground (arith, p, inside, m.0))
            (ground (arith, p, inside, out, has-append b xs ys))
            (elim (has-first ys) [
              | inl none_left ↦ inl (n ∙ none_left)
              | inr some_left ↦ inr (λ e. ground (arith, e, n, some_left, out, has-append b xs ys))
            ]),
    )
