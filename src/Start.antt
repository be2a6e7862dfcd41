-- ===== src/Start.antt =====
-- tb-threads.c, lines 94-115 and 292-327: how tbthread_create and the new thread's start_thread meet,
-- a shared access at a time, with the stores of the kernel to the thread's `tid`. clone has succeeded.
mod Meeting
mod Calm
mod Tests
use threading_from_scratch.Prelude.{
  ℕ,
  ◌+◌,
  Bool,
  true,
  false,
  ◌==◌,
  if◌then◌else◌,
  List,
  [],
  ◌∷◌,
  Outcome.{Outcome, ok, err},
}
use threading_from_scratch.Kernel.{Kernel, wake_one}
use threading_from_scratch.Descriptors.Create.{start_ok, start_wait, start_exit}

-- The fields of the descriptor that both use, with what the kernel keeps for the two futexes, how often
-- the user's function has been called, and whether the stack is mapped.
pub record Shared (Queue : Type 0) : Type 0 where
  pub start_status : ℕ
  pub tid : ℕ
  pub status_queue : Queue
  pub tid_queue : Queue
  pub calls : ℕ
  pub mapped : Bool

-- Where tbthread_create stands.
pub data Creator : Type 0 where
  storing : Creator  -- before line 303
  setting : Creator  -- before line 310
  telling : Creator  -- before lines 312-313
  waking : Creator  -- before FUTEX_WAKE, line 314
  reading : Creator  -- in wait_for_thread, before line 161
  awaiting : (tid : ℕ) → Creator  -- before FUTEX_WAIT, line 165
  asleep : (tid : ℕ) → Creator  -- in FUTEX_WAIT, line 165
  unmapping : Creator  -- before line 324
  returned : Creator  -- past that, or returned

-- Where the new thread stands.
pub data Child : Type 0 where
  born : Child  -- before the kernel stores `tid`, as CLONE_CHILD_SETTID asks
  looking : Child  -- before line 101
  waiting : Child  -- before FUTEX_WAIT, line 102
  in_kernel : Child  -- in FUTEX_WAIT, line 102
  looking_again : Child  -- before line 103
  running : Child  -- in the user's function, line 110
  leaving : Child  -- in exit(2), before the kernel clears `tid`, as CLONE_CHILD_CLEARTID asks
  clearing : Child  -- before the kernel's wake-up on `tid`
  gone : Child

pub data Event : Type 0 where
  creator_goes creator_interrupted child_goes child_interrupted : Event

pub record Start (Queue : Type 0) : Type 0 where
  pub mem : Shared Queue
  pub creator : Creator
  pub child : Child

abbrev pub is_ok : Outcome → Bool
is_ok ok = true
is_ok (err e) = false

-- The numbers of the two threads.
abbrev pub creator_number : ℕ
creator_number = 0

abbrev pub child_number : ℕ
child_number = 1

-- `inherit` is the attribute of line 309, `ret` what tb_set_sched returns, and `t` the new thread's
-- number.
module _ (k : Kernel) (inherit : Bool) (ret : Outcome) (t : ℕ) where
  open k use {Queue, nobody, sleeping, sleep, leave, wake}

  pub creator_step : Creator → Shared Queue → Shared Queue × Creator
  creator_step storing m = (record m { tid = t }, if inherit then returned else setting)
  creator_step setting m = (m, telling)
  creator_step telling m =
      (record m { start_status = if is_ok ret then start_ok else start_exit }, waking)
  creator_step waking m = (
    record m { status_queue = wake wake_one m.status_queue },
    if is_ok ret then returned else reading,
  )
  creator_step reading m = (m, if m.tid == 0 then unmapping else awaiting m.tid)
  creator_step (awaiting tid) m =
      if m.tid == tid
      then (record m { tid_queue = sleep creator_number m.tid_queue }, asleep tid)
      else (m, unmapping)
  creator_step (asleep tid) m =
      (m, if sleeping m.tid_queue creator_number then asleep tid else unmapping)
  creator_step unmapping m = (record m { mapped = false }, returned)
  creator_step returned m = (m, returned)

  pub child_step : Child → Shared Queue → Shared Queue × Child
  child_step born m = (record m { tid = t }, looking)
  child_step looking m =
      if m.start_status == start_ok
      then (record m { calls = m.calls + 1 }, running)
      else (m, waiting)
  child_step waiting m =
      if m.start_status == start_wait
      then (record m { status_queue = sleep child_number m.status_queue }, in_kernel)
      else (m, looking_again)
  child_step in_kernel m =
      (m, if sleeping m.status_queue child_number then in_kernel else looking_again)
  child_step looking_again m =
      if m.start_status == start_exit
      then (m, leaving)
      else (record m { calls = m.calls + 1 }, running)
  child_step running m = (m, leaving)
  child_step leaving m = (record m { tid = 0 }, clearing)
  child_step clearing m = (record m { tid_queue = wake wake_one m.tid_queue }, gone)
  child_step gone m = (m, gone)

  -- A FUTEX_WAIT that ends without a wake: line 166 makes it again,
  pub creator_interrupt : Creator → Shared Queue → Shared Queue × Creator
  creator_interrupt (asleep tid) m =
      (record m { tid_queue = leave creator_number m.tid_queue }, awaiting tid)
  creator_interrupt c m = (m, c)

  -- and line 102 does not.
  pub child_interrupt : Child → Shared Queue → Shared Queue × Child
  child_interrupt in_kernel m =
      (record m { status_queue = leave child_number m.status_queue }, looking_again)
  child_interrupt c m = (m, c)

  abbrev by_creator : Start Queue → Shared Queue × Creator → Start Queue
  by_creator s (m, c) = record s { mem = m; creator = c }

  abbrev by_child : Start Queue → Shared Queue × Child → Start Queue
  by_child s (m, c) = record s { mem = m; child = c }

  unfoldable pub step : Event → Start Queue → Start Queue
  unfolding creator_step child_step creator_interrupt child_interrupt
  step creator_goes s = by_creator s (creator_step s.creator s.mem)
  step creator_interrupted s = by_creator s (creator_interrupt s.creator s.mem)
  step child_goes s = by_child s (child_step s.child s.mem)
  step child_interrupted s = by_child s (child_interrupt s.child s.mem)

  -- Lines 278-283, and clone.
  abbrev pub start : Start Queue
  start = record {
    mem = record {
      start_status = if inherit then start_ok else start_wait;
      tid = 0;
      status_queue = nobody;
      tid_queue = nobody;
      calls = 0;
      mapped = true;
    };
    creator = storing;
    child = born;
  }

  unfoldable pub run : List Event → Start Queue → Start Queue
  unfolding step
  run [] s = s
  run (e ∷ es) s = run es (step e s)
