-- ===== src/Inherit.antt =====
-- tb-mutexes.c, lines 226-275: lock_prio_inherit, trylock_prio_inherit and unlock_prio_inherit, a
-- shared access at a time, by any number of threads in any order. The mutex's internal futex is the
-- lock of Futex, with its own word, sleepers and steps.
pub mod Threads
pub mod Inner
pub mod Invariant
pub mod Kept
mod Wakeups
pub mod Safety
mod Cases
mod Retry
mod Progress
mod Tests
use threading_from_scratch.Prelude.{ℕ, suc, Bool, true, false, ◌==◌, if◌then◌else◌}
use threading_from_scratch.Kernel.{Kernel, wake_one}
use threading_from_scratch.Futex.{
  Lock, Pc, idle, holding, Event, lock, try_lock, unlock, go, interrupt, step,
}

-- The fields of `tbthread_mutex_t` that the three functions use, with what the kernel keeps for
-- `futex`. A thread is its number plus one, so that 0 is the null pointer.
pub record Mutex (Queue : Type 0) : Type 0 where
  pub internal_futex : Lock Queue
  pub futex : ℕ
  pub owner : ℕ
  pub queue : Queue

-- Where a thread stands; `try` says that it is in trylock_prio_inherit.
pub data Place : Type 0 where
  outside : Place  -- without the mutex
  taking : (try : Bool) → Place  -- lines 232-233, 253-254
  lending : Place  -- before tb_inherit_mutex_sched, line 240
  naming : (try : Bool) → Place  -- before lines 235, 256
  marking : (try : Bool) → Place  -- before lines 236, 257
  adding : (try : Bool) → Place  -- before tb_inherit_mutex_add, lines 237, 258
  leaving : (try locked : Bool) → Place  -- lines 241-244, 260-263
  blocked : Place  -- in FUTEX_WAIT, line 244
  owning : Place  -- outside, with the mutex
  releasing : Place  -- lines 268-269
  forgetting : Place  -- before line 270
  clearing : Place  -- before line 271
  rousing : Place  -- before FUTEX_WAKE, line 272
  ending : Place  -- line 273

-- Lines 233, 254: what is next when the word has been read.
pub look : {Q : Type 0} → Bool → Mutex Q → Place
look try m = if m.futex == 0 then naming try else if try then leaving true false else lending

module _ (k : Kernel) where
  open k use {Queue, sleeping, sleep, leave, wake}

  -- A step of the internal futex, in tb_futex_lock or tb_futex_unlock.
  pub inner : Event → ℕ → Mutex Queue → Place → Pc → Mutex Queue × Place × Pc
  inner e i m place p =
      let (l, p') = step k e i m.internal_futex p in (record m { internal_futex = l }, place, p')

  -- Lines 242-244, 261-263, once the internal futex is given back. FUTEX_WAIT returns at once unless
  -- the word is 1.
  pub after_section : ℕ → Mutex Queue → Bool → Bool → Mutex Queue × Place × Pc
  unfolding inner
  after_section i m try true = (m, owning, idle)
  after_section i m true false = (m, outside, idle)
  after_section i m false false =
      if m.futex == 1
      then (record m { queue = sleep i m.queue }, blocked, idle)
      else inner lock i m (taking false) idle

  -- What a thread does next: `p` is where it stands with the internal futex.
  pub advance : ℕ → Mutex Queue → Place → Pc → Mutex Queue × Place × Pc
  unfolding inner look after_section
  advance i m (taking try) holding = (m, look try m, holding)
  advance i m (taking try) p = inner go i m (taking try) p
  advance i m lending p = (m, leaving false false, p)
  advance i m (naming try) p = (record m { owner = suc i }, marking try, p)
  advance i m (marking try) p = (record m { futex = 1 }, adding try, p)
  advance i m (adding try) p = (m, leaving try true, p)
  advance i m (leaving try locked) holding = inner unlock i m (leaving try locked) holding
  advance i m (leaving try locked) idle = after_section i m try locked
  advance i m (leaving try locked) p = inner go i m (leaving try locked) p
  advance i m blocked p =
      if sleeping m.queue i then (m, blocked, p) else inner lock i m (taking false) p
  advance i m releasing holding = (m, forgetting, holding)
  advance i m releasing p = inner go i m releasing p
  advance i m forgetting p = (record m { owner = 0 }, clearing, p)
  advance i m clearing p = (record m { futex = 0 }, rousing, p)
  advance i m rousing p = (record m { queue = wake wake_one m.queue }, ending, p)
  advance i m ending holding = inner unlock i m ending holding
  advance i m ending idle = (m, outside, idle)
  advance i m ending p = inner go i m ending p
  advance i m place p = (m, place, p)

  -- One event of thread `i`. An event that does not fit its place changes nothing: a thread locks
  -- only a mutex that it does not have, and unlocks one that it has.
  unfoldable pub move : Event → ℕ → Mutex Queue → Place → Pc → Mutex Queue × Place × Pc
  unfolding inner advance
  move lock i m outside p = inner lock i m (taking false) p
  move try_lock i m outside p = inner lock i m (taking true) p
  move unlock i m owning p = inner lock i m releasing p
  move go i m place p = advance i m place p
  move interrupt i m blocked p =
      inner lock i (record m { queue = leave i m.queue }) (taking false) p
  move interrupt i m place p = inner interrupt i m place p
  move _ i m place p = (m, place, p)
