-- ===== src/Descriptors/Nodes.antt =====
-- tb-threads.c, lines 218-230, on tb-utils.c, lines 394-440: the release of a descriptor on the nodes of
-- the two lists, against the lists of Descriptors.
use threading_from_scratch.Prelude.{
  ℕ, ◌<◌, ◌≡◌, ◌≢◌, refl, sym, subst, ap, ◌∙◌, ◌⊎◌, inl, inr, true, false, ◌==◌, Option, none, some,
  List, [], ◌∷◌, ◌++◌, length, arith,
}
use threading_from_scratch.Sched.{rm_protect}
use threading_from_scratch.LinkedList.{Node, Store, list_add, list_find_elem, list_rm}
use threading_from_scratch.LinkedList.Links.{has, Links, IsList, IsDistinct, has-append, frame}
use threading_from_scratch.LinkedList.Walk.{first_with, find-first}
use threading_from_scratch.LinkedList.Added.{add_front, Added, list_add-Added}
use threading_from_scratch.LinkedList.Remove.{list_rm-Removed}
use threading_from_scratch.LinkedList.Visit.{elements}
use threading_from_scratch.LinkedList.Protect.{Holds, found_or_absent, elements-same}
use threading_from_scratch.Descriptors.{rm_first}

rm_first-rm_protect : (d : ℕ) (xs : List ℕ) → rm_first d xs ≡ rm_protect d xs
unfolding rm_first rm_protect
rm_first-rm_protect d [] = refl
rm_first-rm_protect d (x ∷ xs) = ground (arith, rm_first-rm_protect d xs)

first_with-absent :
    (d : ℕ) (s : Store) (a : ℕ) (xs : List ℕ)
    → Links s a xs
    → first_with (λ x. x == d) s xs ≡ 0
    → has d (elements s xs) ≡ false
first_with-absent d s a [] l z = refl
first_with-absent d s a (x ∷ xs) l z = ground (arith, first_with-absent d s x xs l.3, l.1)

first_with-element :
    (d : ℕ) (s : Store) (xs : List ℕ)
    → first_with (λ x. x == d) s xs ≢ 0
    → (s (first_with (λ x. x == d) s xs)).element ≡ d
first_with-element d s [] set = absurd (set refl)
first_with-element d s (x ∷ xs) set = ground (arith, first_with-element d s xs)

elements-last :
    (s : Store) (xs : List ℕ) (n : ℕ)
    → elements s (xs ++ n ∷ []) ≡ elements s xs ++ (s n).element ∷ []
elements-last s [] n = refl
elements-last s (x ∷ xs) n = ap (λ es. (s x).element ∷ es) (elements-last s xs n)

middle-apart : (n : ℕ) (bs cs : List ℕ) → IsDistinct (bs ++ n ∷ cs) → has n (bs ++ cs) ≡ false
middle-apart n [] cs d = d.0
middle-apart n (b ∷ bs) cs d =
    ground (arith, d.0, has-append b bs (n ∷ cs), middle-apart n bs cs d.1)

-- A store that is the same at the nodes of a list holds the same list.
kept-IsList :
    (s t : Store) (a : ℕ) (xs : List ℕ)
    → ((c : ℕ) → has c (a ∷ xs) ≡ true → t c ≡ s c)
    → IsList s a xs
    → IsList t a xs
kept-IsList s t a xs same is = (
  frame s t a xs (λ c h. ap Node.next (same c h)) (λ c h. ap Node.prev (same c (ground (arith, h))))
      is.0,
  is.1,
)

-- The used list was `xs` at `a`, and the free list `ys` at `b`: what is left of them after a release of
-- `d`.
abbrev pub Released : Store → (a b : ℕ) → (xs ys : List ℕ) → ℕ → Option Store → Type 0
Released s a b xs ys d none = ⊥
Released s a b xs ys d (some t) =
    Holds t a (rm_first d (elements s xs)) × Holds t b (elements s ys ++ d ∷ [])

module _ (s : Store) (a b rounds : ℕ) (xs ys : List ℕ) (is : IsList s a xs) (is_b : IsList s b ys)
    (apart : (c : ℕ) → has c (a ∷ xs) ≡ true → has c (b ∷ ys) ≡ false) (short : length xs < rounds)
    (short_b : length ys < rounds) (set_b : b ≢ 0) where
  moved-Released :
      (d n : ℕ) (bs cs : List ℕ)
      → n ≢ 0
      → xs ≡ bs ++ n ∷ cs
      → (s n).element ≡ d
      → rm_first d (elements s xs) ≡ elements s (bs ++ cs)
      → (o : Option Store)
      → ((c : ℕ) → has c (a ∷ (bs ++ cs)) ≡ true → (has c (n ∷ b ∷ ys) ≡ false))
      → Added (list_rm n s) b n ys (add_front false n ys) o
      → Released s a b xs ys d o
  moved-Released d n bs cs set split at same none out added = added
  moved-Released d n bs cs set split at same (some t) out (holds, elems, others) =
      let s1 = list_rm n s in
      let r = list_rm-Removed s a n bs cs (subst (IsList s a) split is) in
      (
        (
          bs ++ cs,
          kept-IsList s1 t a (bs ++ cs) (λ c h. others c (out c h)) r.0,
          elements-same s t (bs ++ cs) (λ c. elems c ∙ r.1 c) ∙ sym same,
        ),
        (
          ys ++ n ∷ [],
          holds,
          elements-same s t (ys ++ n ∷ []) (λ c. elems c ∙ r.1 c)
              ∙ elements-last s ys n
              ∙ ap (λ e. elements s ys ++ e ∷ []) at,
        ),
      )

  -- On the nodes of the used and of the free list, which have no node in common, with more rounds than
  -- nodes, the calls of release_descriptor: list_find_elem of a descriptor ends; it gives null exactly
  -- if no used node has the descriptor; and otherwise list_rm and list_add of what it gives leave the
  -- used list with the descriptors that rm_first leaves, and the free list with this one at its end.
  pub nodes-release :
      (d : ℕ)
      → (n : ℕ) × (list_find_elem rounds a d s ≡ some n)
        × (((n ≡ 0) × (has d (elements s xs) ≡ false))
            ⊎ ((n ≢ 0) × Released s a b xs ys d (list_add rounds b n false (list_rm n s))))
  nodes-release d =
      let n = first_with (λ x. x == d) s xs in
      (
        n,
        (find-first s rounds a d (λ x y. false) xs is short).0,
        elim (found_or_absent d s a xs is.0) [
          | inl (z, same) ↦ inl (z, first_with-absent d s a xs is.0 z)
          | inr (set, (bs, cs, split, same)) ↦
              let s1 = list_rm n s in
              let dist = subst (λ zs. IsDistinct (a ∷ zs)) split is.1 in
              let inside : (c : ℕ) → has c (a ∷ (bs ++ cs)) ≡ true → has c (a ∷ xs) ≡ true = λ c h.
                subst (λ zs. has c (a ∷ zs) ≡ true) (sym split)
                  (ground (arith, h, has-append c bs cs, has-append c bs (n ∷ cs))) in
              let n_in : has n (a ∷ xs) ≡ true =
                subst (λ zs. has n (a ∷ zs) ≡ true) (sym split)
                  (ground (arith, has-append n bs (n ∷ cs))) in
              let r = list_rm-Removed s a n bs cs (subst (IsList s a) split is) in
              let b_kept : IsList s1 b ys =
                kept-IsList s s1 b ys (λ c h. r.2 c (ground (arith, inside c, apart c, h))) is_b in
              inr (
                set,
                moved-Released d n bs cs set split (first_with-element d s xs set)
                    (rm_first-rm_protect d (elements s xs) ∙ same) (list_add rounds b n false s1)
                    (λ c h.
                      let far = apart c (inside c h) in
                      let own = middle-apart n (a ∷ bs) cs dist in ground (arith, far, own, h))
                    (list_add-Added s1 b n ys b_kept set set_b (apart n n_in) rounds false short_b),
              )
        ],
      )
