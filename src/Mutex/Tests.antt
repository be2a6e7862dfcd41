-- ===== src/Mutex/Tests.antt =====
-- tb-mutexes.c: calls on concrete mutexes.
use threading_from_scratch.Prelude.{
  none,
  if◌then◌else◌,
  ℕ,
  ◌≤◌,
  ◌≡◌,
  refl,
  inl,
  inr,
  Bool,
  true,
  false,
  ◌==◌,
  if◌then◌else◌,
  some,
  List,
  [],
  ◌∷◌,
  arith,
  Outcome.{ok},
}
use threading_from_scratch.Sched.{Thread, Scheduler, sched_info_pack, sched_fifo}
use threading_from_scratch.Mutex.{Mutex, State, faults}
use threading_from_scratch.Mutex.Types.{tbthread_mutex_unlock}
use threading_from_scratch.Mutex.Promise.{
  IsMutex, Call, lock, trylock, unlock, call, promise, view, call-promise, call-others,
  follows_null,
}
use threading_from_scratch.Mutex.Owner.{calls, owner_keeps}
use threading_from_scratch.Mutex.Recursive.{repeat, recursive_nests}
use threading_from_scratch.Mutex.Errors.{last_unlock_faults}
use threading_from_scratch.Mutex.Attributes.{
  Setting, type, protocol, prioceiling, set_all, tbthread_mutexattr_init, tbthread_mutex_init,
  tbthread_mutex_getprioceiling, tbthread_mutex_setprioceiling, initialized-IsMutex,
  setprioceiling-view,
}

abbrev grants_all : Scheduler
grants_all tid policy priority = ok

-- A thread at its address, with nothing to schedule.
abbrev thread : ℕ → Thread
thread t = record {
  tid = t;
  sched_info = 0;
  user_sched_info = 0;
  protect_mutexes = [];
  inherit_mutexes = [];
}

abbrev mutex : (t p owner counter : ℕ) → Mutex
mutex t p owner counter = record {
  futex = if owner == 0 then 0 else 1;
  type = t;
  protocol = p;
  sched_info = sched_info_pack sched_fifo 10;
  owner = owner;
  counter = counter;
}

-- All mutexes are alike, and the tests use one of them.
abbrev alike : Mutex → State
alike m = record { mutexes = λ a. m; threads = thread }

free-IsMutex : (t p : ℕ) → t ≤ 2 → 3 ≤ p → p ≤ 5 → IsMutex (mutex t p 0 0)
free-IsMutex t p lt lo hi = record {
  known_type = lt;
  known_protocol = (lo, hi);
  owned = inr (refl, refl);
  counted = λ r. (λ e. refl, λ e. refl);
  count_fits = omega arith;
}

owned-IsMutex : (t p : ℕ) → t ≤ 2 → 3 ≤ p → p ≤ 5 → IsMutex (mutex t p 7 1)
owned-IsMutex t p lt lo hi = record {
  known_type = lt;
  known_protocol = (lo, hi);
  owned = inl (refl, λ e. cc);
  counted = λ r. (λ e. cc, λ e. cc);
  count_fits = omega arith;
}

call-promise_example :
    view 3 (call lock grants_all true 3 7 (alike (mutex 1 5 0 0)))
    ≡ (if follows_null lock 7 (mutex 1 5 0 0) then none else some (promise lock 7 (mutex 1 5 0 0)))
call-promise_example =
    call-promise lock grants_all true 3 7 (alike (mutex 1 5 0 0))
      (free-IsMutex 1 5 (omega arith) (omega arith) (omega arith)) (λ e. cc) (λ u. cc)

call-others_run :
    view 4 (call lock grants_all true 3 7 (alike (mutex 1 5 0 0)))
    ≡ some ((promise lock 7 (mutex 1 5 0 0)).0, mutex 1 5 0 0)
call-others_run =
    call-others lock grants_all true 3 7 4 (alike (mutex 1 5 0 0)) (λ e. cc)
      (free-IsMutex 1 5 (omega arith) (omega arith) (omega arith)) (λ e. cc, λ u. cc, λ u. cc)

abbrev strangers : List (Call × ℕ × Bool)
strangers = (lock, 8, true) ∷ (unlock, 9, true) ∷ (trylock, 8, false) ∷ []

owner_keeps_example :
    (calls grants_all 3 strangers (alike (mutex 1 4 7 1))).mutexes 3 ≡ mutex 1 4 7 1
owner_keeps_example =
    owner_keeps grants_all 3 strangers (alike (mutex 1 4 7 1))
      (owned-IsMutex 1 4 (omega arith) (omega arith) (omega arith)) (λ e. cc) (λ e. cc) (λ e. cc)
      ((λ e. cc, λ e. cc), ((λ e. cc, λ e. cc), ((λ e. cc, λ e. cc), tt)))

recursive_nests_run :
    let s' = calls grants_all 3 (repeat true 7 lock 3) (alike (mutex 2 3 0 0)) in
    ((s'.mutexes 3).owner ≡ 7)
    × ((s'.mutexes 3).counter ≡ 3)
    × ((calls grants_all 3 (repeat true 7 unlock 3) s').mutexes 3 ≡ mutex 2 3 0 0)
recursive_nests_run =
    recursive_nests grants_all true 3 7 (λ e. cc) 2 (alike (mutex 2 3 0 0))
      (free-IsMutex 2 3 (omega arith) (omega arith) (omega arith)) refl refl refl (omega arith)

last_unlock_faults_run : tbthread_mutex_unlock grants_all true 3 7 (alike (mutex 2 5 7 1)) ≡ faults
last_unlock_faults_run =
    last_unlock_faults grants_all true 3 7 (alike (mutex 2 5 7 1))
      (owned-IsMutex 2 5 (omega arith) (omega arith) (omega arith)) refl (λ e. cc) refl refl

abbrev some_settings : List Setting
some_settings = type 2 ∷ protocol 5 ∷ prioceiling 30 ∷ prioceiling 100 ∷ []

initialized-IsMutex_run :
    let attr = set_all some_settings tbthread_mutexattr_init in
    let m = tbthread_mutex_init (some attr) in
    IsMutex m
    × (m.owner ≡ 0)
    × (tbthread_mutex_getprioceiling m ≡ (if attr.protocol == 5 then attr.prioceiling else 0))
initialized-IsMutex_run = initialized-IsMutex some_settings

setprioceiling-view_run :
    view 3 (tbthread_mutex_setprioceiling grants_all true 3 8 20 (alike (mutex 0 5 0 0)))
    ≡ some (some ok, record (mutex 0 5 0 0) { sched_info = sched_info_pack sched_fifo 20 })
setprioceiling-view_run =
    setprioceiling-view grants_all true 3 8 20 (alike (mutex 0 5 0 0))
      (free-IsMutex 0 5 (omega arith) (omega arith) (omega arith)) (λ e. cc)
