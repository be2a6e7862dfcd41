-- ===== src/Descriptors.antt =====
-- tb-threads.c, lines 120-230 and 332-417: thread descriptors. The two lists are held as the descriptors of their
-- nodes, in order; LinkedList is about the nodes. What stands between tbthread_mutex_lock and
-- tbthread_mutex_unlock of `desc_mutex` is one step.
pub mod Create
pub mod Actions
mod Claims
mod Nodes
mod Keeps
mod Exits
mod Released
mod Made
mod Outcomes
mod Tests
use threading_from_scratch.Prelude.{
  ℕ,
  ◌==◌,
  Bool,
  true,
  false,
  not,
  if◌then◌else◌,
  Option,
  none,
  some,
  List,
  [],
  ◌∷◌,
  ◌++◌,
  Threads.{put},
  Outcome.{Outcome, ok, err, esrch, einval, edeadlk},
}
use threading_from_scratch.LinkedList.Links.{has}
use threading_from_scratch.Sched.{Thread}

-- TB_DETACHED, TB_JOINABLE and TB_JOINABLE_FIXED
abbrev pub tb_detached : ℕ
tb_detached = 0

abbrev pub tb_joinable : ℕ
tb_joinable = 1

abbrev pub tb_joinable_fixed : ℕ
tb_joinable_fixed = 2

-- The fields of a `struct tbthread` that the file uses; those that scheduling uses too are in `sched`.
-- A pointer is an address, 0 if it is null.
pub record Descriptor : Type 0 where
  pub self : ℕ
  pub stack : ℕ
  pub stack_size : ℕ
  pub fn : ℕ
  pub arg : ℕ
  pub retval : ℕ
  pub join_status : ℕ
  pub cancel_status : ℕ
  pub joiner : ℕ
  pub start_status : ℕ
  pub sched : Thread

-- The descriptors at their addresses, `used_desc` and `free_desc`, and the stacks that are mapped.
pub record State : Type 0 where
  pub desc : ℕ → Descriptor
  pub used : List ℕ
  pub free : List ℕ
  pub stacks : List ℕ

-- A null pointer is followed, the function waits for good, or it returns.
pub data Run (A : Type 0) : Type 0 where
  faults blocks : Run A
  returns : A → Run A

abbrev pub change : ℕ → Descriptor → State → State
change d v s = record s { desc = put s.desc d v }

-- list_rm of the node of an element.
unfoldable pub rm_first : ℕ → List ℕ → List ℕ
rm_first d [] = []
rm_first d (x ∷ xs) = if x == d then xs else x ∷ rm_first d xs

-- How a FUTEX_WAIT ends: a wake, -EWOULDBLOCK, or another error.
pub data WaitEnd : Type 0 where
  woken would_block failed : WaitEnd

-- The loop of wait_for_thread, over the ends of its waits: whether it is left.
unfoldable pub wait_rounds : List WaitEnd → Bool
wait_rounds [] = false
wait_rounds (woken ∷ ws) = true
wait_rounds (would_block ∷ ws) = true
wait_rounds (failed ∷ ws) = wait_rounds ws

unfoldable pub wait_for_thread : (tid : ℕ) → List WaitEnd → Bool
unfolding wait_rounds
wait_for_thread tid ws = if not (tid == 0) then wait_rounds ws else true

-- Line 210.
abbrev pub add_used : ℕ → State → State
add_used d s = record s { used = s.used ++ d ∷ [] }

-- What malloc gives for a new descriptor, which is written through whether it is null or not.
abbrev pub add_fresh : Option ℕ → State → Run (ℕ × State)
add_fresh none s = faults
add_fresh (some d) s = returns (d, add_used d s)

unfoldable pub next_descriptor :
    (fresh : Option ℕ) → List WaitEnd → State → (free : List ℕ) → Run (ℕ × State)
unfolding wait_for_thread
next_descriptor fresh ws s [] = add_fresh fresh s
next_descriptor fresh ws s (d ∷ ds) =
    if wait_for_thread (s.desc d).sched.tid ws
    then returns (d, add_used d (record s { free = ds }))
    else blocks

unfoldable pub get_descriptor : (fresh : Option ℕ) → List WaitEnd → State → Run (ℕ × State)
unfolding next_descriptor
get_descriptor fresh ws s = next_descriptor fresh ws s s.free

-- A descriptor that is not in use has no node, and list_rm follows the null pointer.
unfoldable pub release_descriptor : ℕ → State → Run State
unfolding rm_first
release_descriptor d s =
    if has d s.used
    then returns (record s { used = rm_first d s.used; free = s.free ++ d ∷ [] })
    else faults

unfoldable pub tbthread_detach : ℕ → State → State × Outcome
tbthread_detach d s =
    if not (has d s.used)
    then (s, err esrch)
    else if (s.desc d).join_status == tb_joinable_fixed
    then (s, err einval)
    else (change d (record (s.desc d) { join_status = tb_detached }) s, ok)

-- tbthread_join, lines 364-398, by the thread `self`.
unfoldable pub join_check : (self d : ℕ) → State → State × Outcome
join_check self d s =
    if d == self
    then (s, err edeadlk)
    else if not (has d s.used)
    then (s, err esrch)
    else if (s.desc d).join_status == tb_detached
    then (s, err einval)
    else if (s.desc self).joiner == d
    then (s, err edeadlk)
    else if not ((s.desc d).joiner == 0)
    then (s, err einval)
    else (change d (record (s.desc d) { join_status = tb_joinable_fixed; joiner = self }) s, ok)

abbrev pub with_retval : ℕ → Run State → Run (State × ℕ)
with_retval v (returns s) = returns (s, v)
with_retval v faults = faults
with_retval v blocks = blocks

-- Lines 400-403, with what is stored at `retval`.
unfoldable pub join_finish : ℕ → List WaitEnd → State → Run (State × ℕ)
unfolding wait_for_thread release_descriptor
join_finish d ws s =
    if wait_for_thread (s.desc d).sched.tid ws
    then with_retval (s.desc d).retval (release_descriptor d s)
    else blocks

abbrev pub joined : Run (State × ℕ) → Run (State × ℕ × Outcome)
joined (returns (s, v)) = returns (s, v, ok)
joined faults = faults
joined blocks = blocks

unfoldable pub tbthread_join : (self d : ℕ) → List WaitEnd → State → Run (State × ℕ × Outcome)
unfolding join_check join_finish
tbthread_join self d ws s =
    let (s', r) = join_check self d s in
    elim r [ ok ↦ joined (join_finish d ws s') | err e ↦ returns (s', 0, err e) ]

-- tbthread_exit, lines 127 and 131-135: the state, and `free_desc`.
unfoldable pub exit_section : (d retval : ℕ) → State → State × Bool
exit_section d retval s = (
  change d (record (s.desc d) { retval = retval; join_status = tb_joinable_fixed }) s,
  (s.desc d).join_status == tb_detached,
)

-- Lines 144-153: the first `syscall` is munmap.
abbrev pub unmap_stack : ℕ → State → State
unmap_stack stack s = record s { stacks = rm_first stack s.stacks }

abbrev pub and_unmap : ℕ → Run State → Run State
and_unmap stack (returns s) = returns (unmap_stack stack s)
and_unmap stack faults = faults
and_unmap stack blocks = blocks

-- The rest of tbthread_exit, with its local variables. Other threads may act before it.
unfoldable pub exit_rest : (free_desc : Bool) → (d stack : ℕ) → State → Run State
unfolding release_descriptor
exit_rest free_desc d stack s =
    and_unmap stack (if free_desc then release_descriptor d s else returns s)
