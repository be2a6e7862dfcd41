-- ===== src/Mutex/Types.antt =====
-- tb-mutexes.c, lines 108-196 and 370-392: mutexes by type.
use threading_from_scratch.Prelude.{
  ℕ,
  ◌+◌,
  ◌%◌,
  ◌^◌,
  Bool,
  not,
  ◌||◌,
  ◌==◌,
  if◌then◌else◌,
  Outcome.{ok, err, eperm, eagain, edeadlk},
}
use threading_from_scratch.Sched.{Scheduler}
use threading_from_scratch.Mutex.{
  State, Result, returns, normal, errorcheck, recursive, counter_max, with_mutex, once_locked,
  if_got, lock_by_protocol, trylock_by_protocol, unlock_by_protocol,
}

-- `memory` says whether malloc has memory for a list node, and `self` is the calling thread.
module _ (sys : Scheduler) (memory : Bool) (a self : ℕ) where
  pub lock_errorcheck : State → Result
  unfolding lock_by_protocol
  lock_errorcheck s =
      if (s.mutexes a).owner == self
      then returns (err edeadlk) s
      else once_locked (lock_by_protocol sys memory a self (s.mutexes a).protocol s) (returns ok)

  pub unlock_errorcheck : State → Result
  unfolding unlock_by_protocol
  unlock_errorcheck s =
      if not ((s.mutexes a).owner == self) || (s.mutexes a).futex == 0
      then returns (err eperm) s
      else once_locked (unlock_by_protocol sys memory a self (s.mutexes a).protocol s) (returns ok)

  -- Lines 161-164 and 179-183.
  pub count_up : State → Result
  count_up s =
      if (s.mutexes a).counter == counter_max
      then returns (err eagain) s
      else returns ok (with_mutex a (λ m. record m { counter = m.counter + 1 }) s)

  pub lock_recursive : State → Result
  unfolding lock_by_protocol count_up
  lock_recursive s =
      if (s.mutexes a).owner == self
      then count_up s
      else once_locked (lock_by_protocol sys memory a self (s.mutexes a).protocol s)
          (λ s. count_up (with_mutex a (λ m. record m { owner = self }) s))

  -- Lines 173-183, once the mutex is the caller's.
  pub count_try : State → Result
  unfolding count_up
  count_try s =
      if not ((s.mutexes a).owner == self)
      then returns ok (with_mutex a (λ m. record m { owner = self; counter = 1 }) s)
      else count_up s

  pub trylock_recursive : State → Result
  unfolding trylock_by_protocol count_try
  trylock_recursive s =
      if (s.mutexes a).owner == self
      then count_try s
      else if_got (trylock_by_protocol sys memory a self (s.mutexes a).protocol s) count_try

  pub unlock_recursive : State → Result
  unfolding unlock_by_protocol
  unlock_recursive s =
      let s' = with_mutex a (λ m. record m { counter = (m.counter + counter_max) % 2 ^ 64 }) s in
      if not ((s.mutexes a).owner == self)
      then returns (err eperm) s
      else if (s'.mutexes a).counter == 0
      then unlock_by_protocol sys memory a self (s.mutexes a).protocol
          (with_mutex a (λ m. record m { owner = 0 }) s')
      else returns ok s'

  unfoldable pub tbthread_mutex_lock : State → Result
  unfolding lock_by_protocol lock_errorcheck lock_recursive
  tbthread_mutex_lock s =
      let t = (s.mutexes a).type in
      if t == normal
      then lock_by_protocol sys memory a self (s.mutexes a).protocol s
      else if t == errorcheck
      then lock_errorcheck s
      else if t == recursive
      then lock_recursive s
      else lock_by_protocol sys memory a self t s

  unfoldable pub tbthread_mutex_trylock : State → Result
  unfolding trylock_by_protocol trylock_recursive
  tbthread_mutex_trylock s =
      let t = (s.mutexes a).type in
      if t == normal || t == errorcheck
      then trylock_by_protocol sys memory a self (s.mutexes a).protocol s
      else if t == recursive
      then trylock_recursive s
      else trylock_by_protocol sys memory a self t s

  unfoldable pub tbthread_mutex_unlock : State → Result
  unfolding unlock_by_protocol unlock_errorcheck unlock_recursive
  tbthread_mutex_unlock s =
      let t = (s.mutexes a).type in
      if t == normal
      then unlock_by_protocol sys memory a self (s.mutexes a).protocol s
      else if t == errorcheck
      then unlock_errorcheck s
      else if t == recursive
      then unlock_recursive s
      else unlock_by_protocol sys memory a self t s
