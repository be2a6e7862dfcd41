-- ===== src/Mutex/Errors.antt =====
-- tb-mutexes.c, lines 186-196: the unlock of a recursive mutex with a priority protocol.
use threading_from_scratch.Prelude.{ℕ, ◌≡◌, ◌≢◌, Bool, arith}
use threading_from_scratch.Sched.{Scheduler}
use threading_from_scratch.Mutex.{State, faults, recursive, prio_none}
use threading_from_scratch.Mutex.Types.{tbthread_mutex_unlock}
use threading_from_scratch.Mutex.Promise.{IsMutex}

-- The last unlock by its owner of a recursive mutex with the protocol TBTHREAD_PRIO_INHERIT or
-- TBTHREAD_PRIO_PROTECT goes through the null pointer that it has just made of `owner`.
pub last_unlock_faults :
    (sys : Scheduler) (memory : Bool) (a self : ℕ) (s : State)
    → IsMutex (s.mutexes a)
    → (s.mutexes a).type ≡ recursive
    → (s.mutexes a).protocol ≢ prio_none
    → (s.mutexes a).owner ≡ self
    → (s.mutexes a).counter ≡ 1
    → tbthread_mutex_unlock sys memory a self s ≡ faults
unfolding tbthread_mutex_unlock
last_unlock_faults sys memory a self s is t p o c = ground (arith, is.known_protocol, t, p, o, c)
