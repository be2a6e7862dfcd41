-- ===== src/Futex.antt =====
-- tb-mutexes.c, lines 83-106: tb_futex_lock, tb_futex_trylock and tb_futex_unlock, a shared access
-- at a time, by any number of threads in any order.
pub mod Threads
pub mod Invariant
pub mod Safety
pub mod Progress
mod Tests
use threading_from_scratch.Prelude.{
  ℕ,
  Bool,
  true,
  false,
  ◌==◌,
  if◌then◌else◌,
  Outcome.{Outcome, ok, err, ebusy},
}
use threading_from_scratch.Kernel.{Kernel, wake_one}

-- `__sync_bool_compare_and_swap`: the new value of the word, and whether it was swapped.
unfoldable pub compare_and_swap : ℕ → ℕ → ℕ → ℕ × Bool
compare_and_swap word old new = if word == old then (new, true) else (word, false)

-- The `int` that the functions get, with what the kernel keeps for it.
pub record Lock (Queue : Type 0) : Type 0 where
  pub futex : ℕ
  pub queue : Queue

-- Where a thread stands.
pub data Pc : Type 0 where
  idle : Pc  -- outside the functions, without the lock
  locking : Pc  -- in tb_futex_lock, before the compare-and-swap
  waiting : Pc  -- in tb_futex_lock, before FUTEX_WAIT
  in_kernel : Pc  -- in FUTEX_WAIT
  holding : Pc  -- outside the functions, with the lock
  waking : Pc  -- in tb_futex_unlock, before FUTEX_WAKE

-- What a thread may do next: a call, its next shared access, or the end of a wait without a wake.
pub data Event : Type 0 where
  lock try_lock unlock go interrupt : Event

pub tb_futex_trylock : {Q : Type 0} → Lock Q → Lock Q × Outcome
unfolding compare_and_swap
tb_futex_trylock m =
    let (word, swapped) = compare_and_swap m.futex 0 1 in
    if swapped then (record m { futex = word }, ok) else (record m { futex = word }, err ebusy)

-- Line 89.
pub lock_cas : {Q : Type 0} → Lock Q → Lock Q × Pc
unfolding compare_and_swap
lock_cas m =
    let (word, swapped) = compare_and_swap m.futex 0 1 in
    (record m { futex = word }, if swapped then holding else waiting)

-- Line 104.
pub unlock_cas : {Q : Type 0} → Lock Q → Lock Q × Pc
unfolding compare_and_swap
unlock_cas m =
    let (word, swapped) = compare_and_swap m.futex 1 0 in
    (record m { futex = word }, if swapped then waking else idle)

after_trylock : Outcome → Pc
after_trylock ok = holding
after_trylock (err e) = idle

module _ (k : Kernel) where
  open k use {Queue, sleeping, sleep, leave, wake}

  -- Line 91, at its entry: FUTEX_WAIT returns at once unless the word is 1.
  pub lock_wait : ℕ → Lock Queue → Lock Queue × Pc
  lock_wait i m =
      if m.futex == 1 then (record m { queue = sleep i m.queue }, in_kernel) else (m, locking)

  -- Line 91, at its return: a thread that is woken goes round the loop.
  pub lock_return : ℕ → Lock Queue → Lock Queue × Pc
  lock_return i m = if sleeping m.queue i then (m, in_kernel) else (m, locking)

  -- Line 105.
  pub unlock_wake : Lock Queue → Lock Queue × Pc
  unlock_wake m = (record m { queue = wake wake_one m.queue }, idle)

  -- One event of thread `i`. An event that does not fit its place changes nothing: a thread calls
  -- tb_futex_unlock only while it holds the lock.
  unfoldable pub step : Event → ℕ → Lock Queue → Pc → Lock Queue × Pc
  unfolding lock_cas lock_wait lock_return unlock_cas unlock_wake tb_futex_trylock after_trylock
  step lock i m idle = (m, locking)
  step try_lock i m idle = let (m', r) = tb_futex_trylock m in (m', after_trylock r)
  step unlock i m holding = unlock_cas m
  step go i m locking = lock_cas m
  step go i m waiting = lock_wait i m
  step go i m in_kernel = lock_return i m
  step go i m waking = unlock_wake m
  step interrupt i m in_kernel = (record m { queue = leave i m.queue }, locking)
  step _ i m p = (m, p)
