-- ===== src/Descriptors/Tests.antt =====
-- tb-threads.c, lines 45-417: runs of tbthread_create, tbthread_join, tbthread_detach and tbthread_exit.
use threading_from_scratch.Prelude.{
  ℕ,
  ◌≡◌,
  ◌≢◌,
  refl,
  true,
  some,
  List,
  [],
  ◌∷◌,
  arith,
  Threads.{put},
  Outcome.{Errno, ok, err, enomem, einval, edeadlk},
}
use threading_from_scratch.Prelude.{◌⊎◌, false, if◌then◌else◌, ◌==◌}
use threading_from_scratch.LinkedList.{Store, list_add, list_find_elem, list_rm}
use threading_from_scratch.Descriptors.Nodes.{Released, nodes-release}
use threading_from_scratch.LinkedList.Links.{has}
use threading_from_scratch.Sched.{
  tb_compute_sched, tb_set_sched, set_if, effective_sched, merge_protect, merge_inherit,
  sched_info_pack,
}
use threading_from_scratch.Descriptors.{
  Descriptor, State, faults, woken, would_block, join_check, tbthread_detach, release_descriptor,
  exit_section,
}
use threading_from_scratch.Descriptors.Create.{
  ThreadAttr, Answers, gives, start_thread, create_error, with_stack, tbthread_create,
  tbthread_init,
}
use threading_from_scratch.Descriptors.Actions.{
  Action, create, begin_join, end_join, exits, ends_exit, act, acts, is_granted, all_granted,
  no_actors,
}
use threading_from_scratch.Descriptors.Claims.{times, Safe}
use threading_from_scratch.Descriptors.Exits.{Good}
use threading_from_scratch.Descriptors.Released.{acts-Safe}
use threading_from_scratch.Descriptors.Made.{IsMade, create-IsMade}
use threading_from_scratch.Descriptors.Outcomes.{claimed_by, join-claims}

-- All zero, as memset leaves a descriptor.
abbrev blank : Descriptor
blank = record {
  self = 0;
  stack = 0;
  stack_size = 0;
  fn = 0;
  arg = 0;
  retval = 0;
  join_status = 0;
  cancel_status = 0;
  joiner = 0;
  start_status = 0;
  sched = record {
    tid = 0;
    sched_info = 0;
    user_sched_info = 0;
    protect_mutexes = [];
    inherit_mutexes = [];
  };
}

abbrev empty : State
empty = record { desc = λ u. blank; used = []; free = []; stacks = [] }

abbrev answers : (fresh stack tid : ℕ) → Answers
answers fresh stack tid = record {
  mapping = gives stack;
  protect = ok;
  fresh = some fresh;
  descriptor_waits = would_block ∷ [];
  clone = gives tid;
  set_sched = λ t p q. ok;
  exit_waits = woken ∷ [];
}

abbrev joinable_attr : ThreadAttr
joinable_attr = record {
  stack_size = 8192;
  joinable = 1;
  sched = record { sched_inherit = 1; sched_policy = 0; sched_priority = 0 };
}

-- The main thread, 5, makes the thread 6, which exits with 33 and is joined, and the detached thread 7,
-- which begins to exit before the join ends and then releases itself.
abbrev a_join : List Action
a_join =
    create (answers 6 100 41) joinable_attr 9 8 5
    ∷ begin_join 5 6
    ∷ create (answers 7 200 42) (record joinable_attr { joinable = 0 }) 9 8 5
    ∷ exits 6 33
    ∷ exits 7 0
    ∷ end_join 6 (woken ∷ [])
    ∷ ends_exit 7
    ∷ []

acts-Safe_example :
    Safe Good
      (acts a_join (no_actors (record { desc = λ u. blank; used = []; free = []; stacks = [] })))
unfolding all_granted is_granted act
acts-Safe_example = acts-Safe (λ u. blank) a_join refl

create-IsMade_example :
    Safe
      (IsMade empty joinable_attr 9 8 5)
      (tbthread_create (answers 6 100 41) joinable_attr 9 8 5 empty)
unfolding times
create-IsMade_example =
    create-IsMade empty joinable_attr 9 8 5 (answers 6 100 41) (λ d. omega arith) refl (λ e. cc)
      refl

abbrev one_used : State
one_used = record {
  desc = put (λ u. blank) 6 (record blank { join_status = 1 });
  used = 6 ∷ [];
  free = [];
  stacks = [];
}

join-claims_example :
    (join_check 5 6 one_used ≡ (claimed_by 5 6 one_used, ok))
    × (tbthread_detach 6 (claimed_by 5 6 one_used) ≡ (claimed_by 5 6 one_used, err einval))
    × ((u : ℕ)
        → (e : Errno) × (join_check u 6 (claimed_by 5 6 one_used)
            ≡ (claimed_by 5 6 one_used, err e)))
    × (has 5 one_used.used ≡ true
        → (one_used.desc 5).join_status ≢ 0
        → join_check 6 5 (claimed_by 5 6 one_used) ≡ (claimed_by 5 6 one_used, err edeadlk))
join-claims_example =
    join-claims 5 6 one_used (λ e. omega arith) refl (λ e. omega arith) (λ e. omega arith)
      (λ e. omega arith) refl

-- The detached thread 6 has set its status and not yet released its descriptor: a join succeeds, and
-- the second of the two releases follows a null pointer.
abbrev detached : State
detached = record { desc = λ u. blank; used = 6 ∷ []; free = []; stacks = [] }

joined_in_window : (join_check 5 6 (exit_section 6 33 detached).0).1 ≡ ok
unfolding join_check exit_section
joined_in_window = refl

released_twice :
    acts
      (exits 6 33 ∷ begin_join 5 6 ∷ ends_exit 6 ∷ end_join 6 (woken ∷ []) ∷ [])
      (no_actors detached)
    ≡ faults
unfolding acts act
released_twice = refl

released_twice_later :
    acts
      (exits 6 33 ∷ begin_join 5 6 ∷ end_join 6 (woken ∷ []) ∷ ends_exit 6 ∷ [])
      (no_actors detached)
    ≡ faults
unfolding acts act
released_twice_later = refl

-- A thread that was given SCHED_FIFO with priority 10 by tbthread_create has no policy of its own: when
-- its priorities are computed again, it goes back to SCHED_NORMAL.
scheduling_lost :
    (tb_compute_sched
      (λ t p q. ok)
      (λ m. 0)
      (record {
        tid = 41;
        sched_info = sched_info_pack 1 10;
        user_sched_info = 0;
        protect_mutexes = [];
        inherit_mutexes = [];
      })).0.sched_info
    ≡ 0
unfolding tb_compute_sched tb_set_sched set_if effective_sched merge_protect merge_inherit
scheduling_lost = refl

-- mprotect fails: the null pointer is released, and that is not in use.
unprotected :
    tbthread_create (record (answers 6 100 41) { protect = err enomem }) joinable_attr 9 8 5 empty
    ≡ faults
unfolding tbthread_create with_stack create_error release_descriptor
unprotected = refl

-- The main thread has no descriptor in use, and its status is that of a detached thread.
main_exits : acts (exits 5 0 ∷ ends_exit 5 ∷ []) (no_actors (tbthread_init 5 40 empty)) ≡ faults
unfolding tbthread_init acts act
main_exits = refl

-- A wait of start_thread that ends early lets the function run, before the scheduling is set.
runs_early : start_thread 1 1 ≡ true
unfolding start_thread
runs_early = refl

-- The used list at 100 has the nodes 7 and 9 of the threads 40 and 30, the free list at 200 the node 8.
abbrev two_lists : Store
two_lists a =
    if a == 100
    then record { next = 7; prev = 0; element = 0 }
    else if a == 7
    then record { next = 9; prev = 100; element = 40 }
    else if a == 9
    then record { next = 0; prev = 7; element = 30 }
    else if a == 200
    then record { next = 8; prev = 0; element = 0 }
    else if a == 8
    then record { next = 0; prev = 200; element = 50 }
    else record { next = 0; prev = 0; element = 0 }

nodes-release_example :
    (n : ℕ) × (list_find_elem 3 100 40 two_lists ≡ some n)
    × (((n ≡ 0) × (has 40 (40 ∷ 30 ∷ []) ≡ false))
        ⊎ ((n ≢ 0)
            × Released two_lists 100 200
                (7 ∷ 9 ∷ [])
                (8 ∷ [])
                40
                (list_add 3 200 n false (list_rm n two_lists))))
nodes-release_example =
    nodes-release two_lists 100 200 3 (7 ∷ 9 ∷ []) (8 ∷ [])
      ((refl, λ e. cc, refl, (refl, λ e. cc, refl, refl)), (refl, (refl, (refl, tt))))
      ((refl, λ e. cc, refl, refl), (refl, (refl, tt))) (λ c h. ground arith) (omega arith)
      (omega arith) (λ e. cc) 40
