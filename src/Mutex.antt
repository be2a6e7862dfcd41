-- ===== src/Mutex.antt =====
-- tb-mutexes.c, lines 198-301: mutexes by protocol. A call by a thread is one step: the sections
-- under `internal_futex` are, and a thread that waits makes its call again. Of `owner` a thread only
-- asks whether it is itself.
pub mod Attributes
pub mod Types
pub mod Promise
pub mod Owner
mod Recursive
mod Errors
mod Tests
use threading_from_scratch.Prelude.{
  ℕ,
  zero,
  suc,
  ◌+◌,
  ◌-◌,
  ◌%◌,
  ◌^◌,
  Bool,
  true,
  false,
  not,
  ◌&&◌,
  ◌||◌,
  ◌==◌,
  ltb,
  leb,
  if◌then◌else◌,
  Option,
  none,
  some,
  List,
  [],
  ◌∷◌,
  Threads.{put},
  Outcome.{Outcome, ok, err, eperm, eagain, ebusy, edeadlk},
}
use threading_from_scratch.Sched.{
  Thread, Scheduler, tb_protect_mutex_sched, tb_protect_mutex_unsched, tb_inherit_mutex_add,
  tb_inherit_mutex_sched, tb_inherit_mutex_unsched,
}

-- `tbthread_mutex_t` without its internal futex. `owner` is a thread's address, and 0 is null.
pub record Mutex : Type 0 where
  pub futex : ℕ
  pub type : ℕ
  pub protocol : ℕ
  pub sched_info : ℕ
  pub owner : ℕ
  pub counter : ℕ

-- The mutexes and the threads, by their addresses.
pub record State : Type 0 where
  pub mutexes : ℕ → Mutex
  pub threads : ℕ → Thread

-- A call returns, goes to sleep in FUTEX_WAIT until the futex changes, or goes through a null pointer
-- or past the end of a table.
pub data Result : Type 0 where
  returns : Outcome → State → Result
  waits : State → Result
  faults : Result

-- The types of tb.h.
abbrev pub normal : ℕ
normal = 0

abbrev pub errorcheck : ℕ
errorcheck = 1

abbrev pub recursive : ℕ
recursive = 2

-- The protocols of tb.h.
abbrev pub prio_none : ℕ
prio_none = 3

abbrev pub prio_inherit : ℕ
prio_inherit = 4

abbrev pub prio_protect : ℕ
prio_protect = 5

-- The largest uint64_t.
abbrev pub counter_max : ℕ
counter_max = 2 ^ 64 - 1

abbrev pub with_mutex : ℕ → (Mutex → Mutex) → State → State
with_mutex a f s = record s { mutexes = put s.mutexes a (f (s.mutexes a)) }

-- A function of tb-sched.c on the mutex's owner; with no owner it locks through a null pointer.
abbrev pub on_owner : ℕ → (Thread → Thread) → State → Option State
on_owner a f s =
    let o = (s.mutexes a).owner in
    if o == 0 then none else some (record s { threads = put s.threads o (f (s.threads o)) })

abbrev pub infos : State → ℕ → ℕ
infos s a = (s.mutexes a).sched_info

-- What follows a call of tb-sched.c.
abbrev pub after : Option State → (State → Result) → Result
after none f = faults
after (some s) f = f s

-- What follows a lock: the caller's outcome, or its wait.
abbrev pub once_locked : Result → (State → Result) → Result
once_locked (returns r s) f = f s
once_locked (waits s) f = waits s
once_locked faults f = faults

-- What follows a lock that is only tried, if it is got.
abbrev pub if_got : Result → (State → Result) → Result
if_got (returns ok s) f = f s
if_got (returns (err e) s) f = returns (err e) s
if_got (waits s) f = waits s
if_got faults f = faults

-- `memory` says whether malloc has memory for a list node, and `self` is the calling thread.
module _ (sys : Scheduler) (memory : Bool) (a self : ℕ) where
  take : State → State
  take s = with_mutex a (λ m. record m { futex = 1; owner = self }) s

  pub lock_prio_none : State → Result
  unfolding take
  lock_prio_none s = if (s.mutexes a).futex == 0 then returns ok (take s) else waits s

  pub trylock_prio_none : State → Result
  unfolding take
  trylock_prio_none s =
      if (s.mutexes a).futex == 0 then returns ok (take s) else returns (err ebusy) s

  -- The tb_futex_unlock in it does nothing unless the word is 1.
  pub unlock_prio_none : State → Result
  unlock_prio_none s =
      returns ok
        (with_mutex a (λ m. record m { owner = 0; futex = if m.futex == 1 then 0 else m.futex }) s)

  pub lock_prio_inherit : State → Result
  unfolding take
  lock_prio_inherit s =
      if (s.mutexes a).futex == 0
      then after (on_owner a (tb_inherit_mutex_add memory a) (take s)) (returns ok)
      else after
          (on_owner a (tb_inherit_mutex_sched sys (infos s) a ((s.threads self).sched_info)) s)
          waits

  pub trylock_prio_inherit : State → Result
  unfolding take
  trylock_prio_inherit s =
      if (s.mutexes a).futex == 0
      then after (on_owner a (tb_inherit_mutex_add memory a) (take s)) (returns ok)
      else returns (err ebusy) s

  pub unlock_prio_inherit : State → Result
  unlock_prio_inherit s =
      after (on_owner a (tb_inherit_mutex_unsched sys (infos s) a) s)
        (λ s. returns ok (with_mutex a (λ m. record m { owner = 0; futex = 0 }) s))

  pub lock_prio_protect : State → Result
  unfolding lock_prio_none
  lock_prio_protect s =
      once_locked (lock_prio_none s)
        (λ s. after (on_owner a (tb_protect_mutex_sched sys (infos s) memory a) s) (returns ok))

  pub trylock_prio_protect : State → Result
  unfolding trylock_prio_none
  trylock_prio_protect s =
      if_got (trylock_prio_none s)
        (λ s. after (on_owner a (tb_protect_mutex_sched sys (infos s) memory a) s) (returns ok))

  pub unlock_prio_protect : State → Result
  unfolding unlock_prio_none
  unlock_prio_protect s =
      after (on_owner a (tb_protect_mutex_unsched sys (infos s) a) s) unlock_prio_none

  -- The entries 3 to 5 of `lockers`, `trylockers` and `unlockers`. A mutex with another protocol,
  -- which the attributes do not give, would send lock_normal back to itself or past the table.
  pub lock_by_protocol : ℕ → State → Result
  unfolding lock_prio_none lock_prio_inherit lock_prio_protect
  lock_by_protocol p s =
      if p == prio_none
      then lock_prio_none s
      else if p == prio_inherit
      then lock_prio_inherit s
      else if p == prio_protect
      then lock_prio_protect s
      else faults

  pub trylock_by_protocol : ℕ → State → Result
  unfolding trylock_prio_none trylock_prio_inherit trylock_prio_protect
  trylock_by_protocol p s =
      if p == prio_none
      then trylock_prio_none s
      else if p == prio_inherit
      then trylock_prio_inherit s
      else if p == prio_protect
      then trylock_prio_protect s
      else faults

  pub unlock_by_protocol : ℕ → State → Result
  unfolding unlock_prio_none unlock_prio_inherit unlock_prio_protect
  unlock_by_protocol p s =
      if p == prio_none
      then unlock_prio_none s
      else if p == prio_inherit
      then unlock_prio_inherit s
      else if p == prio_protect
      then unlock_prio_protect s
      else faults
