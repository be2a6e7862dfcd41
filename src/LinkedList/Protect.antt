-- ===== src/LinkedList/Protect.antt =====
-- tb-sched.c, lines 45-87, on tb-utils.c, lines 406-440: the list of a thread's priority protect mutexes
-- as nodes, against the list of Sched.
use threading_from_scratch.Prelude.{
  ℕ, ◌<◌, ◌≡◌, ◌≢◌, refl, sym, subst, ap, ◌∙◌, ◌⊎◌, inl, inr, Bool, false, ◌==◌, ltb, Bool-cases,
  Option, none, some, List, [], ◌∷◌, ◌++◌, length, arith,
}
use threading_from_scratch.Sched.{sched_info_priority, add_protect, rm_protect}
use threading_from_scratch.LinkedList.{Store, list_add_here, list_find_elem, list_rm}
use threading_from_scratch.LinkedList.Links.{has, Links, IsList}
use threading_from_scratch.LinkedList.Walk.{first_with, find-first}
use threading_from_scratch.LinkedList.Added.{add_before, Added, list_add_here-Added}
use threading_from_scratch.LinkedList.Remove.{list_rm-Removed}
use threading_from_scratch.LinkedList.Visit.{elements}

-- mutex_prio_smaller, on the addresses of two mutexes.
abbrev pub mutex_prio_smaller : (infos : ℕ → ℕ) → ℕ → ℕ → Bool
mutex_prio_smaller infos this next =
    ltb (sched_info_priority (infos next)) (sched_info_priority (infos this))

pub elements-same :
    (s t : Store) (xs : List ℕ)
    → ((b : ℕ) → (t b).element ≡ (s b).element)
    → elements t xs ≡ elements s xs
elements-same s t [] same = refl
elements-same s t (x ∷ xs) same = cc (same x, elements-same s t xs same)

elements-add_before :
    (infos : ℕ → ℕ) (s : Store) (node : ℕ) (xs : List ℕ)
    → elements s (add_before (mutex_prio_smaller infos (s node).element) s node xs)
      ≡ add_protect infos (s node).element (elements s xs)
unfolding add_protect
elements-add_before infos s node [] = refl
elements-add_before infos s node (x ∷ xs) = ground (arith, elements-add_before infos s node xs)

pub found_or_absent :
    (m : ℕ) (s : Store) (a : ℕ) (xs : List ℕ)
    → Links s a xs
    → let n = first_with (λ x. x == m) s xs in
      ((n ≡ 0) × (rm_protect m (elements s xs) ≡ elements s xs))
      ⊎ ((n ≢ 0)
          × ((bs : List ℕ) × (cs : List ℕ) × (xs ≡ bs ++ n ∷ cs)
              × (rm_protect m (elements s xs) ≡ elements s (bs ++ cs))))
unfolding rm_protect
found_or_absent m s a [] l = inl (refl, refl)
found_or_absent m s a (x ∷ xs) l = elim (Bool-cases ((s x).element == m)) [
  | inl here ↦ rw here (inr (l.1, ([], xs, refl, refl)))
  | inr later ↦ rw later (elim (found_or_absent m s x xs l.3) [
    | inl (z, same) ↦ inl (z, ap (λ es. (s x).element ∷ es) same)
    | inr (set, (bs, cs, split, same)) ↦
        inr (set, (x ∷ bs, cs, ap (λ zs. x ∷ zs) split, ap (λ es. (s x).element ∷ es) same))
  ])
]

-- What the calls of tb_protect_mutex_sched and tb_protect_mutex_unsched leave.
abbrev pub Holds : Store → ℕ → List ℕ → Type 0
Holds s a ms = (xs : List ℕ) × IsList s a xs × (elements s xs ≡ ms)

abbrev pub Leaves : (a : ℕ) → (ms : List ℕ) → Option Store → Type 0
Leaves a ms none = ⊥
Leaves a ms (some t) = Holds t a ms

Added-Leaves :
    (infos : ℕ → ℕ) (s : Store) (a node : ℕ) (xs : List ℕ) (o : Option Store)
    → Added s a node xs (add_before (mutex_prio_smaller infos (s node).element) s node xs) o
    → Leaves a (add_protect infos (s node).element (elements s xs)) o
Added-Leaves infos s a node xs none added = added
Added-Leaves infos s a node xs (some t) added = (
  add_before (mutex_prio_smaller infos (s node).element) s node xs,
  added.0,
  elements-same s t _ added.1 ∙ elements-add_before infos s node xs,
)

module _ (infos : ℕ → ℕ) (s : Store) (a rounds : ℕ) (xs : List ℕ) (is : IsList s a xs)
    (enough : length xs < rounds) where
  add_here-protect :
      (node : ℕ)
      → node ≢ 0
      → a ≢ 0
      → has node (a ∷ xs) ≡ false
      → Leaves a
          (add_protect infos (s node).element (elements s xs))
          (list_add_here rounds a node (mutex_prio_smaller infos) s)
  add_here-protect node set some_a fresh =
      Added-Leaves infos s a node xs (list_add_here rounds a node (mutex_prio_smaller infos) s) (
        list_add_here-Added s a node xs is set some_a fresh rounds (mutex_prio_smaller infos)
          enough)

  find_rm-protect :
      (m : ℕ)
      → (n : ℕ) × (list_find_elem rounds a m s ≡ some n)
        × (((n ≡ 0) × (rm_protect m (elements s xs) ≡ elements s xs))
            ⊎ ((n ≢ 0) × Holds (list_rm n s) a (rm_protect m (elements s xs))))
  find_rm-protect m =
      let n = first_with (λ x. x == m) s xs in
      (
        n,
        (find-first s rounds a m (λ x y. false) xs is enough).0,
        (elim (found_or_absent m s a xs is.0) [
          | inl absent ↦ inl absent
          | inr (set, (bs, cs, split, same)) ↦
              let r = list_rm-Removed s a n bs cs (subst (IsList s a) split is) in
              inr (set, (bs ++ cs, r.0, elements-same s (list_rm n s) (bs ++ cs) r.1 ∙ sym same))
        ]),
      )

  -- On the nodes of a list that holds the mutexes of a thread, with more rounds than nodes, the calls
  -- of tb-sched.c do to the nodes what Sched does to the sequence of mutexes: list_add_here of a new
  -- node for a mutex, not null, leaves a list that holds the mutexes as add_protect does; and
  -- list_find_elem of a mutex ends, and gives either null, where rm_protect changes nothing, or a
  -- node, whose list_rm leaves a list that holds the mutexes as rm_protect does.
  pub nodes-protect :
      (node : ℕ)
      → node ≢ 0
      → a ≢ 0
      → has node (a ∷ xs) ≡ false
      → Leaves a
          (add_protect infos (s node).element (elements s xs))
          (list_add_here rounds a node (mutex_prio_smaller infos) s)
        × ((m : ℕ)
            → (n : ℕ) × (list_find_elem rounds a m s ≡ some n)
              × (((n ≡ 0) × (rm_protect m (elements s xs) ≡ elements s xs))
                  ⊎ ((n ≢ 0) × Holds (list_rm n s) a (rm_protect m (elements s xs)))))
  nodes-protect node set some_a fresh = (add_here-protect node set some_a fresh, find_rm-protect)
