-- ===== src/Monitor/Tests.antt =====
-- tb-condvar.c and tb-mutexes.c: a consumer and a producer.
use threading_from_scratch.Prelude.{
  ℕ,
  zero,
  suc,
  ◌<◌,
  ◌≡◌,
  ◌≢◌,
  refl,
  inr,
  Bool,
  true,
  false,
  List,
  [],
  ◌∷◌,
  ◌++◌,
  replicate,
  arith,
  Outcome.{ok},
}
use threading_from_scratch.Kernel.{sleepers}
use threading_from_scratch.Sched.{Scheduler}
use threading_from_scratch.Mutex.{Mutex, State}
use threading_from_scratch.Mutex.Promise.{call}
use threading_from_scratch.Condvar
use threading_from_scratch.Condvar.Progress.{Leaves}
use threading_from_scratch.Monitor.{
  in_wait, testing, outside, Event, consume, produce, go, accepts, step,
}
use threading_from_scratch.Monitor.Threads.{Programs, waits_of, start, turn, run}
use threading_from_scratch.Monitor.Mutexes.{IsPlain}
use threading_from_scratch.Monitor.Flags.{has_mutex, owner_of, is_relocking}
use threading_from_scratch.Monitor.Told.{is_announcing}
use threading_from_scratch.Monitor.Heard.{flag_is_heard, wait_releases}

abbrev grants_all : Scheduler
grants_all tid policy priority = ok

-- The mutexes are normal ones without a priority protocol, and free.
abbrev free_mutex : Mutex
free_mutex = record { futex = 0; type = 0; protocol = 3; sched_info = 0; owner = 0; counter = 0 }

abbrev state : State
state = record {
  mutexes = λ a. free_mutex;
  threads = λ t. record {
    tid = t;
    sched_info = 0;
    user_sched_info = 0;
    protect_mutexes = [];
    inherit_mutexes = [];
  };
}

free_mutex-IsPlain : IsPlain free_mutex
free_mutex-IsPlain = record {
  is = record {
    known_type = omega arith;
    known_protocol = omega arith;
    owned = inr (refl, refl);
    counted = λ r. (λ e. refl, λ e. refl);
    count_fits = omega arith;
  };
  once = λ e. cc;
}

abbrev after : List (ℕ × Event) → Programs (List Bool)
after xs = run sleepers grants_all true 7 2 xs (start sleepers grants_all true 7 state)

-- Thread 0 waits, and sleeps in FUTEX_WAIT.
abbrev waits : List (ℕ × Event)
waits = (0, consume) ∷ replicate 4 (0, go)

-- Thread 1 sets the flag, broadcasts and unlocks.
abbrev tells : List (ℕ × Event)
tells = waits ++ (1, produce) ∷ replicate 4 (1, go)

heard : (after (tells ++ replicate 5 (0, go))).place 0 ≡ outside
unfolding run step accepts call Condvar.step
heard = refl

calm : (j : ℕ) → is_announcing ((after tells).place j) ≡ false
unfolding run step accepts call Condvar.step
calm zero = refl
calm (suc zero) = refl
calm (suc (suc j)) = ground arith

flag_is_heard_example : Leaves sleepers 2 0 (waits_of (after tells))
unfolding run step accepts call Condvar.step
flag_is_heard_example =
    flag_is_heard sleepers grants_all true 7 2 (omega arith) state free_mutex-IsPlain refl tells
      (omega arith) refl calm 0 refl

wait_releases_example :
    (has_mutex ((after tells).place 0) ≡ true
      → (owner_of sleepers grants_all true 7 (after tells).mem ≡ 1)
        × ((j : ℕ) → has_mutex ((after tells).place j) ≡ true → 0 ≡ j))
    × ((after tells).place 0 ≡ in_wait → owner_of sleepers grants_all true 7 (after tells).mem ≢ 1)
    × (is_relocking ((after tells).pc 0) ≡ true
        → owner_of sleepers grants_all true 7 (after tells).mem ≡ 0
        → 0 < 2
        → ((turn sleepers grants_all true 7 2 (0, go) (after tells)).place 0 ≡ testing)
          × (owner_of sleepers grants_all true 7
                (turn sleepers grants_all true 7 2 (0, go) (after tells)).mem
              ≡ 1))
wait_releases_example =
    wait_releases sleepers grants_all true 7 2 (omega arith) state free_mutex-IsPlain refl tells
      (omega arith) 0
