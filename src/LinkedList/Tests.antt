-- ===== src/LinkedList/Tests.antt =====
-- tb-utils.c, lines 378-473: a list at the address 100 with two nodes, and one more node.
use threading_from_scratch.Prelude.{
  ℕ,
  ◌+◌,
  ◌≡◌,
  ◌≢◌,
  refl,
  ◌⊎◌,
  false,
  ◌==◌,
  if◌then◌else◌,
  none,
  some,
  [],
  ◌∷◌,
  arith,
  Outcome.{err, enomem},
}
use threading_from_scratch.Sched.{sched_info_pack, add_protect, rm_protect}
use threading_from_scratch.LinkedList.{
  Node, Store, list_add, list_add_here, list_add_elem, list_find_elem, list_find_elem_func, list_rm,
  list_for_each_elem, list_clear,
}
use threading_from_scratch.LinkedList.Links.{has, IsList}
use threading_from_scratch.LinkedList.Added.{Added, AddedOk, element_set, insertions-Added}
use threading_from_scratch.LinkedList.Remove.{list_rm-Removed}
use threading_from_scratch.LinkedList.Visit.{walks-end}
use threading_from_scratch.LinkedList.Protect.{mutex_prio_smaller, Leaves, Holds, nodes-protect}

abbrev node : (next prev element : ℕ) → Node
node next prev element = record { next = next; prev = prev; element = element }

-- The mutexes 40 and 30, and a node for the mutex 35.
abbrev two : Store
two a =
    if a == 100
    then node 7 0 0
    else if a == 7
    then node 9 100 40
    else if a == 9
    then node 0 7 30
    else node 0 0 35

two-IsList : IsList two 100 (7 ∷ 9 ∷ [])
two-IsList = ((refl, λ e. cc, refl, (refl, λ e. cc, refl, refl)), (refl, (refl, (refl, tt))))

-- The ceiling of a mutex is its number.
abbrev ceilings : ℕ → ℕ
ceilings m = sched_info_pack 1 m

insertions-Added_run :
    Added two 100 8 (7 ∷ 9 ∷ []) (7 ∷ 9 ∷ 8 ∷ []) (list_add 3 100 8 false two)
    × Added two 100 8
        (7 ∷ 9 ∷ [])
        (7 ∷ 8 ∷ 9 ∷ [])
        (list_add_here 3 100 8 (mutex_prio_smaller ceilings) two)
    × AddedOk
        (element_set 8 5 two)
        100
        8
        (7 ∷ 9 ∷ [])
        (7 ∷ 9 ∷ 8 ∷ [])
        (list_add_elem 3 (some 8) 100 5 false two)
    × (list_add_elem 3 none 100 5 false two ≡ some (two, err enomem))
insertions-Added_run =
    insertions-Added two 100 8 (7 ∷ 9 ∷ []) two-IsList (λ e. cc) (λ e. cc) refl 3 5 false
      (mutex_prio_smaller ceilings) (omega arith)

list_rm-Removed_run :
    IsList (list_rm 7 two) 100 (9 ∷ [])
    × ((b : ℕ) → (list_rm 7 two b).element ≡ (two b).element)
    × ((b : ℕ) → has b (100 ∷ 9 ∷ []) ≡ false → list_rm 7 two b ≡ two b)
list_rm-Removed_run = list_rm-Removed two 100 7 [] (9 ∷ []) two-IsList

walks-end_example :
    (list_find_elem 3 100 30 two ≡ some 9)
    × (list_find_elem_func 3 100 30 (λ x y. y == x + 10) two ≡ some 7)
    × (list_for_each_elem 3 100 two ≡ some (40 ∷ 30 ∷ []))
    × ((t : Store) × (list_clear 3 100 two ≡ some (7 ∷ 9 ∷ [], t))
        × IsList t 100 []
        × ((b : ℕ) → b ≢ 100 → t b ≡ two b))
walks-end_example =
    walks-end 3 100 30 (λ x y. y == x + 10) two (7 ∷ 9 ∷ []) two-IsList (omega arith)

nodes-protect_example :
    Leaves 100
      (add_protect ceilings 35 (40 ∷ 30 ∷ []))
      (list_add_here 3 100 8 (mutex_prio_smaller ceilings) two)
    × ((m : ℕ)
        → (n : ℕ) × (list_find_elem 3 100 m two ≡ some n)
          × (((n ≡ 0) × (rm_protect m (40 ∷ 30 ∷ []) ≡ 40 ∷ 30 ∷ []))
              ⊎ ((n ≢ 0) × Holds (list_rm n two) 100 (rm_protect m (40 ∷ 30 ∷ [])))))
nodes-protect_example =
    nodes-protect ceilings two 100 3 (7 ∷ 9 ∷ []) two-IsList (omega arith) 8 (λ e. cc) (λ e. cc)
      refl
