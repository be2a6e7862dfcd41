-- ===== src/Boost.antt =====
-- tb-mutexes.c, lines 226-275, with tb-sched.c, lines 94-196: what a priority-inherit mutex does to the
-- scheduling of the threads that use it.
pub mod Steps
mod Kept
mod Calls
mod Raised
mod Tests
use threading_from_scratch.Prelude.{
  ℕ,
  zero,
  suc,
  Bool,
  true,
  ltb,
  if◌then◌else◌,
  List,
  [],
  ◌∷◌,
  Threads.{put},
}
use threading_from_scratch.Kernel.{Kernel}
use threading_from_scratch.Futex.{Pc, holding, Event, go}
use threading_from_scratch.Inherit
use threading_from_scratch.Inherit.{Place, adding, lending, releasing}
use threading_from_scratch.Sched.{
  Scheduler, Thread, tb_inherit_mutex_add, tb_inherit_mutex_sched, tb_inherit_mutex_unsched,
}

-- The calls of tb-sched.c.
pub data SchedCall : Type 0 where
  add sched unsched nothing : SchedCall

-- Which one a thread's next step is: lines 237 and 258, 240, 269.
abbrev pub next_call : Event → Place → Pc → SchedCall
next_call go (adding try) p = add
next_call go lending p = sched
next_call go releasing holding = unsched
next_call e place p = nothing

-- `owner->...`: the owner is not null then, by Inherit.Safety.
abbrev pub at_owner : ℕ → (Thread → Thread) → (ℕ → Thread) → ℕ → Thread
at_owner zero f scheds = scheds
at_owner (suc j) f scheds = put scheds j (f (scheds j))

-- The call by thread `i`, for the mutex `m`; malloc has memory for its element.
pub make_call :
    Scheduler → (infos : ℕ → ℕ) → (m : ℕ) → SchedCall → (i owner : ℕ) → (ℕ → Thread) → ℕ → Thread
make_call sys infos m add i owner scheds = at_owner owner (tb_inherit_mutex_add true m) scheds
make_call sys infos m sched i owner scheds =
    at_owner owner (tb_inherit_mutex_sched sys infos m (scheds i).sched_info) scheds
make_call sys infos m unsched i owner scheds =
    at_owner owner (tb_inherit_mutex_unsched sys infos m) scheds
make_call sys infos m nothing i owner scheds = scheds

-- What was lent since the mutex was taken: the `sched_info` of each thread that came to wait.
abbrev pub lend : SchedCall → ℕ → List ℕ → List ℕ
lend add info lent = []
lend sched info lent = info ∷ lent
lend c info lent = lent
