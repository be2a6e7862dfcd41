-- ===== src/Mutex/Promise.antt =====
-- tb-mutexes.c, lines 108-301: who a mutex belongs to.
use threading_from_scratch.Prelude.{
  ℕ,
  ◌+◌,
  ◌-◌,
  ◌≤◌,
  ◌≡◌,
  ◌≢◌,
  refl,
  ◌⊎◌,
  ◌↔◌,
  Bool,
  false,
  not,
  ◌&&◌,
  ◌==◌,
  if◌then◌else◌,
  Option,
  none,
  some,
  arith,
  Outcome.{Outcome, ok, err, eperm, eagain, ebusy, edeadlk},
}
use threading_from_scratch.Sched.{Scheduler}
use threading_from_scratch.Mutex.{
  Mutex, State, Result, returns, waits, faults, normal, errorcheck, recursive, prio_none,
  counter_max, take,
}
use threading_from_scratch.Mutex.Types.{
  tbthread_mutex_lock, tbthread_mutex_trylock, tbthread_mutex_unlock,
}

-- A mutex that tbthread_mutex_init makes, at rest: one of the types and protocols, with the word 1
-- and an owner, or the word 0 and none; a recursive one counts the locks of its owner.
pub record IsMutex (m : Mutex) : Type 0 where
  pub known_type : m.type ≤ 2
  pub known_protocol : (3 ≤ m.protocol) × (m.protocol ≤ 5)
  pub owned : ((m.futex ≡ 1) × (m.owner ≢ 0)) ⊎ ((m.futex ≡ 0) × (m.owner ≡ 0))
  pub counted : m.type ≡ recursive → (m.owner ≡ 0) ↔ (m.counter ≡ 0)
  pub count_fits : m.counter ≤ counter_max

-- The outcome of a call, or `none` for a wait, and what it leaves of the mutex; `none` for a fault.
abbrev pub view : ℕ → Result → Option (Option Outcome × Mutex)
view a (returns r s) = some (some r, s.mutexes a)
view a (waits s) = some (none, s.mutexes a)
view a faults = none

-- The mutex as the caller's.
abbrev pub own : ℕ → Mutex → Mutex
own self m = record m { futex = 1; owner = self }

-- One more lock of a recursive mutex, by its owner.
abbrev pub counted_up : Mutex → Option Outcome × Mutex
counted_up m =
    if m.counter == counter_max
    then (some (err eagain), m)
    else (some ok, record m { counter = m.counter + 1 })

-- A mutex that has just become the caller's; a recursive one has been locked once.
abbrev pub first_lock : ℕ → Mutex → Mutex
first_lock self m = if m.type == recursive then record (own self m) { counter = 1 } else own self m

-- A mutex that has just been given back.
abbrev pub given_back : Mutex → Mutex
given_back m = record m {
  owner = 0;
  futex = 0;
  counter = if m.type == recursive then 0 else m.counter;
}

-- What the calls promise. A mutex of the normal type may be unlocked by any thread.
pub lock_promise : ℕ → Mutex → Option Outcome × Mutex
lock_promise self m =
    if m.owner == 0
    then (some ok, first_lock self m)
    else if m.owner == self && m.type == errorcheck
    then (some (err edeadlk), m)
    else if m.owner == self && m.type == recursive
    then counted_up m
    else (none, m)

pub trylock_promise : ℕ → Mutex → Option Outcome × Mutex
trylock_promise self m =
    if m.owner == 0
    then (some ok, first_lock self m)
    else if m.owner == self && m.type == recursive
    then counted_up m
    else (some (err ebusy), m)

pub unlock_promise : ℕ → Mutex → Option Outcome × Mutex
unlock_promise self m =
    if not (m.type == normal) && not (m.owner == self)
    then (some (err eperm), m)
    else if m.type == recursive && not (m.counter == 1)
    then (some ok, record m { counter = m.counter - 1 })
    else (some ok, given_back m)

pub data Call : Type 0 where
  lock trylock unlock : Call

unfoldable pub call : Call → Scheduler → (memory : Bool) → (a self : ℕ) → State → Result
unfolding tbthread_mutex_lock tbthread_mutex_trylock tbthread_mutex_unlock
call lock sys memory a self s = tbthread_mutex_lock sys memory a self s
call trylock sys memory a self s = tbthread_mutex_trylock sys memory a self s
call unlock sys memory a self s = tbthread_mutex_unlock sys memory a self s

unfoldable pub promise : Call → ℕ → Mutex → Option Outcome × Mutex
unfolding lock_promise trylock_promise unlock_promise
promise lock self m = lock_promise self m
promise trylock self m = trylock_promise self m
promise unlock self m = unlock_promise self m

-- A thread may always lock; it unlocks a mutex of the normal type only if some thread has it, and
-- recursive mutexes are used without a priority protocol.
abbrev pub Fair : Call → ℕ → Mutex → Type 0
Fair c self m =
    (self ≢ 0)
    × (c ≡ unlock → m.type ≡ normal → m.owner ≢ 0)
    × (c ≡ unlock → m.type ≡ recursive → m.protocol ≡ prio_none)

-- The last unlock of a recursive mutex with a priority protocol: line 191 makes the owner null before
-- the protocol follows it.
pub follows_null : Call → ℕ → Mutex → Bool
follows_null lock self m = false
follows_null trylock self m = false
follows_null unlock self m =
    m.type == recursive && m.owner == self && m.counter == 1 && not (m.protocol == prio_none)

-- By a thread that is not null, on a mutex of any type and protocol that tbthread_mutex_init makes,
-- at rest, and of the normal type locked before it is unlocked: the last unlock by the owner of a
-- recursive mutex with a priority protocol faults. Any other call does the following.
-- lock and trylock of a mutex without owner succeed, and make the caller its owner, of a recursive one
-- with the count 1. The owner's lock gives EDEADLK if the type is errorcheck, adds 1 to the count of a
-- recursive mutex (EAGAIN at the largest), and waits else; its trylock of a recursive mutex is like its
-- lock. All other calls of lock wait, and all others of trylock give EBUSY; both leave the mutex as it is. An
-- unlock by another thread than the owner gives EPERM and leaves it, except for the normal type; an
-- unlock of a recursive mutex whose count is not 1 takes 1 from it; and any other one leaves a mutex
-- without owner.
pub call-promise :
    (c : Call) (sys : Scheduler) (memory : Bool) (a self : ℕ) (s : State)
    → IsMutex (s.mutexes a)
    → self ≢ 0
    → (c ≡ unlock → (s.mutexes a).type ≡ normal → (s.mutexes a).owner ≢ 0)
    → view a (call c sys memory a self s)
      ≡ (if follows_null c self (s.mutexes a) then none else some (promise c self (s.mutexes a)))
unfolding call promise take follows_null
call-promise lock sys memory a self s is set locked =
    ground (arith, is.known_type, is.known_protocol, is.owned, is.counted, set)
call-promise trylock sys memory a self s is set locked =
    ground (arith, is.known_type, is.known_protocol, is.owned, is.counted, set)
call-promise unlock sys memory a self s is set locked =
    let known = locked refl in
    ground (arith, is.known_type, is.known_protocol, is.owned, is.counted, known)

-- A fair call does not fault.
follows_null-Fair :
    (c : Call) (self : ℕ) (m : Mutex) → Fair c self m → follows_null c self m ≡ false
unfolding follows_null
follows_null-Fair lock self m fair = refl
follows_null-Fair trylock self m fair = refl
follows_null-Fair unlock self m fair = let plain = fair.2 refl in ground (arith, plain)

pub call_fairly :
    (c : Call) (sys : Scheduler) (memory : Bool) (a self : ℕ) (s : State)
    → IsMutex (s.mutexes a)
    → Fair c self (s.mutexes a)
    → view a (call c sys memory a self s) ≡ some (promise c self (s.mutexes a))
call_fairly c sys memory a self s is fair =
    let r = call-promise c sys memory a self s is fair.0 fair.1 in
    rw (follows_null-Fair c self (s.mutexes a) fair) at r

-- No call touches another mutex.
pub call-others :
    (c : Call) (sys : Scheduler) (memory : Bool) (a self b : ℕ) (s : State)
    → b ≢ a
    → IsMutex (s.mutexes a)
    → Fair c self (s.mutexes a)
    → view b (call c sys memory a self s) ≡ some ((promise c self (s.mutexes a)).0, s.mutexes b)
unfolding call promise take
call-others lock sys memory a self b s other is fair =
    ground (arith, is.known_type, is.known_protocol, is.owned, is.counted, fair.0)
call-others trylock sys memory a self b s other is fair =
    ground (arith, is.known_type, is.known_protocol, is.owned, is.counted, fair.0)
call-others unlock sys memory a self b s other is fair =
    let locked = fair.1 refl in
    let plain = fair.2 refl in
    ground (arith, is.known_type, is.known_protocol, is.owned, is.counted, locked, plain)

pub promise-IsMutex :
    (c : Call) (self : ℕ) (m : Mutex) → self ≢ 0 → IsMutex m → IsMutex (promise c self m).1
unfolding promise
promise-IsMutex lock self m set is = record {
  known_type = ground (arith, is.known_type);
  known_protocol = ground (arith, is.known_protocol);
  owned = ground (arith, is.owned);
  counted = ground (arith, is.counted, is.owned);
  count_fits = ground (arith, is.count_fits);
}
promise-IsMutex trylock self m set is = record {
  known_type = ground (arith, is.known_type);
  known_protocol = ground (arith, is.known_protocol);
  owned = ground (arith, is.owned);
  counted = ground (arith, is.counted, is.owned);
  count_fits = ground (arith, is.count_fits);
}
promise-IsMutex unlock self m set is = record {
  known_type = ground (arith, is.known_type);
  known_protocol = ground (arith, is.known_protocol);
  owned = ground (arith, is.owned);
  counted = ground (arith, is.counted, is.owned);
  count_fits = ground (arith, is.count_fits);
}
