-- ===== src/Boost/Tests.antt =====
-- tb-mutexes.c, lines 226-275, with tb-sched.c: three threads of the priorities 10, 20 and 30.
use threading_from_scratch.Prelude.{
  ℕ,
  zero,
  suc,
  ◌≡◌,
  refl,
  inl,
  inr,
  none,
  Bool,
  List,
  [],
  ◌∷◌,
  ◌++◌,
  replicate,
  arith,
  Outcome.{ok},
}
use threading_from_scratch.Kernel.{sleepers}
use threading_from_scratch.Futex
use threading_from_scratch.Futex.{Event, lock, unlock, go}
use threading_from_scratch.Inherit.{blocked, owning, move}
use threading_from_scratch.Inherit
use threading_from_scratch.Sched.{
  Scheduler, Thread, tb_inherit_mutex_add, tb_inherit_mutex_sched, sched_info_pack,
  sched_info_priority, find_inherit, effective_sched,
}
use threading_from_scratch.Sched.Kept.{Kept, Grants}
use threading_from_scratch.Boost.{make_call}
use threading_from_scratch.Boost.Steps.{Boosted, start, run}
use threading_from_scratch.Boost.Calls.{NoHigher}
use threading_from_scratch.Boost.Raised.{owner_boosted}

abbrev grants_all : Scheduler
grants_all tid policy priority = ok

grants : Grants grants_all
grants tid policy priority s = refl

abbrev no_ceilings : ℕ → ℕ
no_ceilings m = 0

abbrev thread : (priority : ℕ) → Thread
thread priority = record {
  tid = priority;
  sched_info = sched_info_pack 1 priority;
  user_sched_info = sched_info_pack 1 priority;
  protect_mutexes = [];
  inherit_mutexes = [];
}

abbrev three : ℕ → Thread
three zero = thread 10
three (suc zero) = thread 20
three (suc (suc j)) = thread 30

three-Kept : (j : ℕ) → Kept no_ceilings (three j)
unfolding effective_sched
three-Kept zero = record { sorted = tt; user = inr (omega arith); waiters = tt; current = refl }
three-Kept (suc zero) = record {
  sorted = tt;
  user = inr (omega arith);
  waiters = tt;
  current = refl;
}
three-Kept (suc (suc j)) = record {
  sorted = tt;
  user = inr (omega arith);
  waiters = tt;
  current = refl;
}

three_fresh : (j : ℕ) → find_inherit 7 (three j).inherit_mutexes ≡ none
unfolding find_inherit
three_fresh zero = refl
three_fresh (suc zero) = refl
three_fresh (suc (suc j)) = refl

abbrev call : ℕ → Event → ℕ → List (ℕ × Event)
call i e l = (i, e) ∷ replicate l (i, go)

abbrev after : List (ℕ × Event) → Boosted (List Bool)
after xs =
    run sleepers grants_all no_ceilings 7 3 xs (start sleepers grants_all no_ceilings 7 3 three)

-- Thread 0 takes the mutex, and the others go to sleep.
abbrev contended : List (ℕ × Event)
contended = call 0 lock 8 ++ call 1 lock 6 ++ call 2 lock 6

owner_boosted_example :
    NoHigher (sched_info_priority ((after contended).scheds 0).sched_info) (after contended).lent
unfolding run make_call Inherit.Threads.turn move Futex.step
owner_boosted_example =
    owner_boosted sleepers grants_all no_ceilings 7 3 grants (λ m. inl (refl, refl)) three
      three-Kept three_fresh contended 0 refl

lent_to_owner :
    ((after contended).lent ≡ sched_info_pack 1 30 ∷ sched_info_pack 1 20 ∷ [])
    × ((after contended).scheds 0).sched_info ≡ sched_info_pack 1 30
unfolding run make_call Inherit.Threads.turn move Futex.step effective_sched tb_inherit_mutex_add
    tb_inherit_mutex_sched
lent_to_owner = (refl, refl)

-- Thread 0 gives the mutex back, and thread 1 takes it.
abbrev handed_over : List (ℕ × Event)
handed_over = contended ++ call 0 unlock 8 ++ replicate 9 (1, go)

-- Thread 2 still sleeps, and the new owner has not inherited its priority.
inversion :
    ((after handed_over).threads.place 1 ≡ owning)
    × ((after handed_over).threads.place 2 ≡ blocked)
    × (sched_info_priority ((after handed_over).scheds 1).sched_info ≡ 20)
    × (sched_info_priority ((after handed_over).scheds 2).sched_info ≡ 30)
unfolding run make_call Inherit.Threads.turn move Futex.step effective_sched tb_inherit_mutex_add
    tb_inherit_mutex_sched
inversion = (refl, refl, refl, refl)
