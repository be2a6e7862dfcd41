-- ===== src/LinkedList.antt =====
-- tb-utils.c, lines 378-473: doubly-linked lists on a store of nodes. A `list_t` that heads a list is
-- a node too, without an element. Each walk has a number of rounds; `none` says that they ran out.
pub mod Links
pub mod Walk
pub mod Insert
pub mod Added
pub mod Remove
pub mod Visit
pub mod Protect
mod Tests
use threading_from_scratch.Prelude.{
  ℕ,
  zero,
  suc,
  Bool,
  false,
  ◌==◌,
  if◌then◌else◌,
  Option,
  none,
  some,
  List,
  [],
  ◌∷◌,
  Threads.{put},
  Outcome.{Outcome, ok, err, enomem},
}

-- `list_t`; a pointer is an address, and 0 is null.
pub record Node : Type 0 where
  pub next : ℕ
  pub prev : ℕ
  pub element : ℕ

abbrev pub Store : Type 0
Store = ℕ → Node

abbrev pub set_next : ℕ → ℕ → Store → Store
set_next a v s = put s a (record (s a) { next = v })

abbrev pub set_prev : ℕ → ℕ → Store → Store
set_prev a v s = put s a (record (s a) { prev = v })

-- The loops of list_add, list_add_here and the two searches: on to the node whose next one is null
-- or one to stop before.
pub walk : (rounds : ℕ) → (stop : ℕ → Bool) → Store → ℕ → Option ℕ
walk zero stop s cursor = none
walk (suc r) stop s cursor =
    let next = (s cursor).next in
    let rest = walk r stop s next in
    if next == 0 then some cursor else if stop (s next).element then some cursor else rest

-- Lines 399-403 and 414-418.
pub insert_after : (cursor node : ℕ) → Store → Store
insert_after cursor node s =
    let s1 = set_next node (s cursor).next s in
    let s2 = set_next cursor node s1 in
    let s3 = set_prev node cursor s2 in
    if (s3 node).next == 0 then s3 else set_prev (s3 node).next node s3

abbrev pub inserted : (node : ℕ) → Option ℕ → Store → Option Store
inserted node none s = none
inserted node (some cursor) s = some (insert_after cursor node s)

pub list_add : (rounds : ℕ) → (list node : ℕ) → (front : Bool) → Store → Option Store
unfolding walk insert_after
list_add rounds list node front s =
    if front
    then some (insert_after list node s)
    else inserted node (walk rounds (λ x. false) s list) s

-- `here` is a test of the new element and one of the list.
pub list_add_here : (rounds : ℕ) → (list node : ℕ) → (here : ℕ → ℕ → Bool) → Store → Option Store
unfolding walk insert_after
list_add_here rounds list node here s = inserted node (walk rounds (here (s node).element) s list) s

abbrev pub with_ok : Option Store → Option (Store × Outcome)
with_ok none = none
with_ok (some s) = some (s, ok)

-- The node is what malloc gives, if it gives one.
pub list_add_elem :
    (rounds : ℕ)
    → (node : Option ℕ) → (list element : ℕ) → (front : Bool) → Store
    → Option (Store × Outcome)
unfolding list_add
list_add_elem rounds none list element front s = some (s, err enomem)
list_add_elem rounds (some node) list element front s =
    with_ok (list_add rounds list node front (put s node (record (s node) { element = element })))

pub list_rm : (node : ℕ) → Store → Store
list_rm node s =
    let s1 = set_next (s node).prev (s node).next s in
    if (s1 node).next == 0 then s1 else set_prev (s1 node).next (s1 node).prev s1

abbrev pub next_of : Store → Option ℕ → Option ℕ
next_of s none = none
next_of s (some cursor) = some (s cursor).next

-- The node found, or 0.
pub list_find_elem : (rounds : ℕ) → (list element : ℕ) → Store → Option ℕ
unfolding walk
list_find_elem rounds list element s = next_of s (walk rounds (λ x. x == element) s list)

pub list_find_elem_func :
    (rounds : ℕ) → (list element : ℕ) → (func : ℕ → ℕ → Bool) → Store → Option ℕ
unfolding walk
list_find_elem_func rounds list element func s =
    next_of s (walk rounds (λ x. func element x) s list)

abbrev pub cons_some : ℕ → Option (List ℕ) → Option (List ℕ)
cons_some x none = none
cons_some x (some xs) = some (x ∷ xs)

-- The elements that the function is called with, from a cursor on.
pub for_each_from : (rounds : ℕ) → ℕ → Store → Option (List ℕ)
for_each_from zero cursor s = none
for_each_from (suc r) cursor s =
    let rest = cons_some (s cursor).element (for_each_from r (s cursor).next s) in
    if cursor == 0 then some [] else rest

pub list_for_each_elem : (rounds : ℕ) → (list : ℕ) → Store → Option (List ℕ)
unfolding for_each_from
list_for_each_elem rounds list s = for_each_from rounds (s list).next s

abbrev pub freed_first : ℕ → Option (List ℕ × Store) → Option (List ℕ × Store)
freed_first node none = none
freed_first node (some (freed, s)) = some (node ∷ freed, s)

-- The nodes that are freed, in order, and the store after.
pub list_clear : (rounds : ℕ) → (list : ℕ) → Store → Option (List ℕ × Store)
list_clear zero list s = none
list_clear (suc r) list s =
    let node = (s list).next in
    let rest = freed_first node (list_clear r list (set_next list (s node).next s)) in
    if node == 0 then some ([], s) else rest
