-- ===== src/LinkedList/Insert.antt =====
-- tb-utils.c, lines 378-419: adding a node.
use threading_from_scratch.Prelude.{ℕ, ◌≡◌, ◌≢◌, ◌∙◌, false, List, [], ◌∷◌, ◌++◌, arith}
use threading_from_scratch.LinkedList.{Store, insert_after}
use threading_from_scratch.LinkedList.Links.{
  has, IsDistinct, Links, end, has-end, has-first, next-end, has-append, frame,
}

module _ (s : Store) (node : ℕ) where
  -- What one insertion writes.
  insert_after-next :
      (c b : ℕ) → c ≢ node → b ≢ node → b ≢ c → (insert_after c node s b).next ≡ (s b).next
  unfolding insert_after
  insert_after-next c b d e f = ground arith

  insert_after-prev :
      (c b : ℕ) → c ≢ node → b ≢ node → b ≢ (s c).next → (insert_after c node s b).prev ≡ (s b).prev
  unfolding insert_after
  insert_after-prev c b d e f = ground arith

  pub insert_after-element : (c b : ℕ) → (insert_after c node s b).element ≡ (s b).element
  unfolding insert_after
  insert_after-element c b = ground arith

  insert_after-at :
      (c : ℕ)
      → c ≢ node
      → (s c).next ≢ node
      → (s c).next ≢ c
      → ((insert_after c node s c).next ≡ node)
        × ((insert_after c node s node).next ≡ (s c).next)
        × ((insert_after c node s node).prev ≡ c)
        × ((s c).next ≢ 0 → (insert_after c node s (s c).next).prev ≡ node)
  unfolding insert_after
  insert_after-at c d e f = (ground arith, ground arith, ground arith, λ g. ground arith)

  -- A node is put in behind the nodes `xs`.
  pub insert-Links :
      (a : ℕ) (xs ys : List ℕ)
      → node ≢ 0
      → a ≢ 0
      → Links s a (xs ++ ys)
      → IsDistinct (a ∷ (xs ++ ys))
      → has node (a ∷ (xs ++ ys)) ≡ false
      → Links (insert_after (end a xs) node s) a (xs ++ node ∷ ys)
  insert-Links a [] [] set some_a l d fresh =
      let w = insert_after-at a (ground (arith, fresh)) (ground (arith, l)) (ground (arith, l)) in
      (w.0, set, w.2, ground (arith, w.1, l))
  insert-Links a [] (y ∷ ys) set some_a l d fresh =
      let w =
        insert_after-at a (ground (arith, fresh)) (ground (arith, l, fresh))
          (ground (arith, l, d)) in
      (
        w.0,
        set,
        w.2,
        (
          w.1 ∙ l.0,
          l.1,
          ground (arith, w.3, l),
          frame s (insert_after a node s) y ys
              (λ b h.
                insert_after-next a b (ground (arith, fresh)) (ground (arith, fresh, h))
                  (ground (arith, d, h)))
              (λ b h.
                insert_after-prev a b (ground (arith, fresh)) (ground (arith, fresh, h))
                  (ground (arith, d, h, l)))
              l.3,
        ),
      )
  insert-Links a (x ∷ xs) ys set some_a l d fresh =
      let c = end x xs in
      let inside = has-end x xs in
      (
        insert_after-next c a (ground (arith, inside, has-append c (x ∷ xs) ys, fresh))
              (ground (arith, fresh)) (ground (arith, inside, has-append a (x ∷ xs) ys, d))
            ∙ l.0,
        l.1,
        insert_after-prev c x (ground (arith, inside, has-append c (x ∷ xs) ys, fresh))
              (ground (arith, fresh))
              (ground (arith, next-end s x xs ys l.3, has-first ys, has-append x xs ys, d, l))
            ∙ l.2,
        insert-Links x xs ys set l.1 l.3 d.1 (ground (arith, fresh)),
      )

pub IsDistinct-insert :
    (node : ℕ) (xs ys : List ℕ)
    → has node (xs ++ ys) ≡ false
    → IsDistinct (xs ++ ys)
    → IsDistinct (xs ++ node ∷ ys)
IsDistinct-insert node [] ys fresh d = (fresh, d)
IsDistinct-insert node (x ∷ xs) ys fresh d = (
  ground (arith, has-append x xs ys, has-append x xs (node ∷ ys), fresh, d.0),
  IsDistinct-insert node xs ys (ground (arith, fresh)) d.1,
)
