-- ===== src/LinkedList/Added.antt =====
-- tb-utils.c, lines 378-419: what the three insertions do to a list.
use threading_from_scratch.Prelude.{
  ℕ,
  ◌<◌,
  ◌≡◌,
  ◌≢◌,
  refl,
  sym,
  subst,
  ap,
  ◌∙◌,
  ◌⊎◌,
  inl,
  inr,
  Bool,
  true,
  false,
  if◌then◌else◌,
  Option,
  none,
  some,
  List,
  [],
  ◌∷◌,
  ◌++◌,
  length,
  arith,
  Threads.{put},
}
use threading_from_scratch.Prelude.Outcome.{Outcome, ok, err, enomem}
use threading_from_scratch.LinkedList.{
  with_ok, list_add_elem, Store, insert_after, list_add, list_add_here,
}
use threading_from_scratch.LinkedList.Walk.{before, from, before-from, walk-end}
use threading_from_scratch.LinkedList.Links.{
  has, IsDistinct, Links, IsList, end, has-end, has-first, next-end, has-append, frame,
}
use threading_from_scratch.LinkedList.Insert.{insert_after-element, insert-Links, IsDistinct-insert}

-- The nodes with a new one put in: at the front, at the back, or before the first that the test of
-- the two elements picks.
abbrev pub add_front : (front : Bool) → ℕ → List ℕ → List ℕ
add_front front node xs = if front then node ∷ xs else xs ++ node ∷ []

abbrev pub add_before : (stop : ℕ → Bool) → Store → ℕ → List ℕ → List ℕ
add_before stop s node [] = node ∷ []
add_before stop s node (x ∷ xs) =
    if stop (s x).element then node ∷ x ∷ xs else x ∷ add_before stop s node xs

add_before-split :
    (stop : ℕ → Bool) (s : Store) (node : ℕ) (xs : List ℕ)
    → before stop s xs ++ node ∷ from stop s xs ≡ add_before stop s node xs
add_before-split stop s node [] = refl
add_before-split stop s node (x ∷ xs) = ground (arith, add_before-split stop s node xs)

add_before-last :
    (s : Store) (node : ℕ) (xs : List ℕ) → add_before (λ x. false) s node xs ≡ xs ++ node ∷ []
add_before-last s node [] = refl
add_before-last s node (x ∷ xs) = ap (λ l. x ∷ l) (add_before-last s node xs)

-- What an insertion does: the sequence is the new one, all elements are as before, and so is every
-- node that is not in the sequence.
abbrev pub Added : Store → (a node : ℕ) → (xs ys : List ℕ) → Option Store → Type 0
Added s a node xs ys none = ⊥
Added s a node xs ys (some t) =
    IsList t a ys
    × ((b : ℕ) → (t b).element ≡ (s b).element)
    × ((b : ℕ) → has b (node ∷ a ∷ xs) ≡ false → t b ≡ s b)

insert_after-outside :
    (s : Store) (node c b : ℕ)
    → b ≢ node
    → b ≢ c
    → ((s c).next ≡ 0) ⊎ (b ≢ (s c).next)
    → c ≢ node
    → insert_after c node s b ≡ s b
unfolding insert_after
insert_after-outside s node c b d e (inl f) g = ground arith
insert_after-outside s node c b d e (inr f) g = ground arith

module _ (s : Store) (a node : ℕ) (xs : List ℕ) (is : IsList s a xs) (set : node ≢ 0)
    (some_a : a ≢ 0) (fresh : has node (a ∷ xs) ≡ false) where
  split-Added :
      (bs cs : List ℕ)
      → bs ++ cs ≡ xs
      → Added s a node xs (bs ++ node ∷ cs) (some (insert_after (end a bs) node s))
  split-Added bs cs split =
      let l = subst (Links s a) (sym split) is.0 in
      let d = subst (λ zs. IsDistinct (a ∷ zs)) (sym split) is.1 in
      let new = subst (λ zs. has node (a ∷ zs) ≡ false) (sym split) fresh in
      let c = end a bs in
      let there = has-end a bs in
      (
        (insert-Links s node a bs cs set some_a l d new, IsDistinct-insert node (a ∷ bs) cs new d),
        λ b. insert_after-element s node c b,
        λ b out.
            let out_all = subst (λ zs. has b (node ∷ a ∷ zs) ≡ false) (sym split) out in
            insert_after-outside s node c b (ground (arith, out_all))
              (ground (arith, out_all, there, has-append b bs cs))
              (elim (has-first cs) [
                | inl none_left ↦ inl (next-end s a bs cs l ∙ none_left)
                | inr some_left ↦ inr (λ e.
                    ground (arith, e, next-end s a bs cs l, some_left, out_all, has-append b bs cs))
              ])
              (ground (arith, new, there, has-append node bs cs)),
      )

  pub list_add-Added :
      (rounds : ℕ) (front : Bool)
      → length xs < rounds
      → Added s a node xs (add_front front node xs) (list_add rounds a node front s)
  unfolding list_add
  list_add-Added rounds true lt = split-Added [] xs refl
  list_add-Added rounds false lt =
      let split = before-from (λ x. false) s xs in
      let added = split-Added (before (λ x. false) s xs) (from (λ x. false) s xs) split in
      rw (walk-end (λ x. false) s rounds a xs is.0 lt) (
        subst
          (λ ys.
            Added s a node xs ys (some (insert_after (end a (before (λ x. false) s xs)) node s)))
          (add_before-split (λ x. false) s node xs ∙ add_before-last s node xs) added)

  pub list_add_here-Added :
      (rounds : ℕ) (here : ℕ → ℕ → Bool)
      → length xs < rounds
      → Added s a node xs
          (add_before (here (s node).element) s node xs)
          (list_add_here rounds a node here s)
  unfolding list_add_here
  list_add_here-Added rounds here lt =
      let stop = here (s node).element in
      let added = split-Added (before stop s xs) (from stop s xs) (before-from stop s xs) in
      rw (walk-end stop s rounds a xs is.0 lt) (
        subst (λ ys. Added s a node xs ys (some (insert_after (end a (before stop s xs)) node s)))
          (add_before-split stop s node xs) added)

abbrev pub AddedOk : Store → (a node : ℕ) → (xs ys : List ℕ) → Option (Store × Outcome) → Type 0
AddedOk s a node xs ys (some (t, ok)) = Added s a node xs ys (some t)
AddedOk s a node xs ys _ = ⊥

with_ok-AddedOk :
    (s : Store) (a node : ℕ) (xs ys : List ℕ) (o : Option Store)
    → Added s a node xs ys o
    → AddedOk s a node xs ys (with_ok o)
with_ok-AddedOk s a node xs ys none added = added
with_ok-AddedOk s a node xs ys (some t) added = added

-- A node that gets its element.
abbrev pub element_set : (node element : ℕ) → Store → Store
element_set node element s = put s node (record (s node) { element = element })

module _ (s : Store) (a node : ℕ) (xs : List ℕ) (is : IsList s a xs) (set : node ≢ 0)
    (some_a : a ≢ 0) (fresh : has node (a ∷ xs) ≡ false) where
  element_set-IsList : (element : ℕ) → IsList (element_set node element s) a xs
  element_set-IsList element = (
    frame s (element_set node element s) a xs (λ b h. ground arith) (λ b h. ground arith) is.0,
    is.1,
  )

  -- For a list with fewer nodes than the rounds, and a node that is not null and not in the list: the
  -- three insertions end, leave all other elements and every node outside as they are, and the list
  -- holds its nodes in the same order with the new one first or last (list_add and list_add_elem, by
  -- `front`), or before the first one that `here` tells (list_add_here); list_add_elem sets the
  -- element of the new node and returns 0, or -ENOMEM, with nothing changed, if there is no memory.
  pub insertions-Added :
      (rounds element : ℕ) (front : Bool) (here : ℕ → ℕ → Bool)
      → length xs < rounds
      → Added s a node xs (add_front front node xs) (list_add rounds a node front s)
        × Added s a node xs
            (add_before (here (s node).element) s node xs)
            (list_add_here rounds a node here s)
        × AddedOk
            (element_set node element s)
            a
            node
            xs
            (add_front front node xs)
            (list_add_elem rounds (some node) a element front s)
        × (list_add_elem rounds none a element front s ≡ some (s, err enomem))
  unfolding list_add_elem
  insertions-Added rounds element front here lt = (
    list_add-Added s a node xs is set some_a fresh rounds front lt,
    list_add_here-Added s a node xs is set some_a fresh rounds here lt,
    with_ok-AddedOk (element_set node element s) a node xs (add_front front node xs) _ (
        list_add-Added (element_set node element s) a node xs (element_set-IsList element) set
          some_a fresh rounds front lt),
    refl,
  )
