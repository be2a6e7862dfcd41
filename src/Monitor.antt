-- ===== src/Monitor.antt =====
-- tb-condvar.c, lines 29-113, with tb-mutexes.c: a condition variable and the mutex that its waits get,
-- in the use that they are made for. A consumer waits until a flag is set, and a producer sets it;
-- both hold the mutex when they touch the flag, and the producer when it broadcasts.
pub mod Threads
mod Mutexes
mod Refined
mod Flags
mod Told
mod Heard
mod Tests
use threading_from_scratch.Prelude.{
  ℕ,
  suc,
  Bool,
  true,
  false,
  ◌==◌,
  if◌then◌else◌,
  Outcome.{Outcome, ok, err, einval},
}
use threading_from_scratch.Kernel.{Kernel}
use threading_from_scratch.Sched.{Scheduler}
use threading_from_scratch.Mutex.{State, Result, returns, waits, faults}
use threading_from_scratch.Mutex.Promise.{Call, lock, unlock, call}
use threading_from_scratch.Condvar
use threading_from_scratch.Condvar.{Cond, Pc, relocking, returned, take_mutex}

-- The condition variable, the mutexes, and the flag.
pub record Shared (Queue : Type 0) : Type 0 where
  pub cond : Cond Queue
  pub state : State
  pub ready : Bool

pub data Role : Type 0 where
  consumer producer : Role

-- Where a thread stands in its program.
pub data Place : Type 0 where
  outside : Place
  locking : Role → Place  -- in tbthread_mutex_lock
  testing : Place  -- with the mutex, before the read of the flag
  entering : Place  -- with the mutex, having read that the flag is not set
  in_wait : Place  -- in tbthread_cond_wait, after line 80
  setting : Place  -- with the mutex, before the write of the flag
  announcing : Place  -- with the mutex, before tbthread_cond_broadcast
  unlocking : Place  -- before tbthread_mutex_unlock

pub data Event : Type 0 where
  consume produce go interrupt : Event
  give_up : Outcome → Event

abbrev pub start_of : Role → Place
start_of consumer = testing
start_of producer = setting

-- A program that does not get the mutex goes away.
abbrev pub after_lock : Role → Outcome → Place
after_lock role ok = start_of role
after_lock role (err e) = outside

-- A consumer goes on in tbthread_cond_wait, or gives the mutex back after an error.
abbrev pub after_wait : Pc → Place
after_wait (returned st) = unlocking
after_wait p = in_wait

-- Lines 66-69.
pub accepts : {Q : Type 0} → ℕ → Cond Q → Bool
accepts x m = (take_mutex x m).mutex == x

module _ (k : Kernel) (sys : Scheduler) (memory : Bool) (a : ℕ) where
  open k use {Queue}

  -- A step of the thread with the condition variable.
  pub on_cond : Condvar.Event → ℕ → Shared Queue → Place → Pc → Shared Queue × Place × Pc
  on_cond e i m place p =
      let (c, p') = Condvar.step k e i m.cond p in (record m { cond = c }, place, p')

  -- tbthread_mutex_lock, which is made again while it waits.
  pub lock_mutex : Result → Role → Shared Queue → Pc → Shared Queue × Place × Pc
  lock_mutex (returns r s) role m p = (record m { state = s }, after_lock role r, p)
  lock_mutex (waits s) role m p = (record m { state = s }, locking role, p)
  lock_mutex faults role m p = (m, locking role, p)

  -- Lines 74-80 and 98-103 with what the unlock of line 74 returns.
  pub enter_wait : Result → ℕ → Shared Queue → Pc → Shared Queue × Place × Pc
  enter_wait (returns r s) i m p =
      let (c, p') = Condvar.step k (Condvar.wait a r) i m.cond p in
      (record m { cond = c; state = s }, after_wait p', p')
  enter_wait (waits s) i m p = (record m { state = s }, entering, p)
  enter_wait faults i m p = (m, entering, p)

  -- Lines 69-80, by the test of line 69; the mutex is not touched if it is another one.
  pub wait_with : Bool → ℕ → Shared Queue → Pc → Shared Queue × Place × Pc
  unfolding enter_wait
  wait_with true i m p = enter_wait (call unlock sys memory a (suc i) m.state) i m p
  wait_with false i m p =
      let (c, p') = Condvar.step k (Condvar.wait a (err einval)) i m.cond p in
      (record m { cond = c }, after_wait p', p')

  -- tbthread_cond_wait to line 80.
  pub begin_wait : ℕ → Shared Queue → Pc → Shared Queue × Place × Pc
  unfolding wait_with
  begin_wait i m p = wait_with (accepts (suc a) m.cond) i m p

  -- Lines 111-112: the wait returns when it has the mutex again, whatever the lock returns.
  pub relock : Result → ℕ → Shared Queue → Pc → Shared Queue × Place × Pc
  relock (returns r s) i m p =
      let (c, p') = Condvar.step k Condvar.go i m.cond p in
      (record m { cond = c; state = s }, testing, p')
  relock (waits s) i m p = (record m { state = s }, in_wait, p)
  relock faults i m p = (m, in_wait, p)

  -- In tbthread_cond_wait, after line 80.
  pub in_cond_wait : ℕ → Shared Queue → Pc → Shared Queue × Place × Pc
  unfolding on_cond relock
  in_cond_wait i m (relocking x st) =
      relock (call lock sys memory a (suc i) m.state) i m (relocking x st)
  in_cond_wait i m p = on_cond Condvar.go i m in_wait p

  pub unlock_mutex : Result → Shared Queue → Pc → Shared Queue × Place × Pc
  unlock_mutex (returns r s) m p = (record m { state = s }, outside, p)
  unlock_mutex (waits s) m p = (record m { state = s }, unlocking, p)
  unlock_mutex faults m p = (m, unlocking, p)

  -- One event of thread `i`, whose address is `i` plus one; one that does not fit changes nothing.
  unfoldable pub step : Event → ℕ → Shared Queue → Place → Pc → Shared Queue × Place × Pc
  unfolding on_cond lock_mutex begin_wait in_cond_wait unlock_mutex
  step consume i m outside p = (m, locking consumer, p)
  step produce i m outside p = (m, locking producer, p)
  step go i m (locking role) p = lock_mutex (call lock sys memory a (suc i) m.state) role m p
  step go i m testing p = (m, if m.ready then unlocking else entering, p)
  step go i m entering p = begin_wait i m p
  step go i m in_wait p = in_cond_wait i m p
  step go i m setting p = (record m { ready = true }, announcing, p)
  step go i m announcing p = on_cond Condvar.broadcast i m unlocking p
  step go i m unlocking p = unlock_mutex (call unlock sys memory a (suc i) m.state) m p
  step interrupt i m in_wait p = on_cond Condvar.interrupt i m in_wait p
  step (give_up st) i m in_wait p = on_cond (Condvar.give_up st) i m in_wait p
  step _ i m place p = (m, place, p)
