-- ===== src/Condvar/Tests.antt =====
-- tb-condvar.c, lines 29-113: runs of three threads over one condition variable.
use threading_from_scratch.Prelude.{
  ℕ,
  ◌-◌,
  ◌^◌,
  ◌<◌,
  ◌≤◌,
  ◌≡◌,
  ◌≢◌,
  refl,
  true,
  List,
  [],
  ◌∷◌,
  arith,
  Outcome.{ok, err, eagain, eperm, einval},
  Threads.{tally},
  Words.{from_int},
}
use threading_from_scratch.Kernel.{sleepers}
use threading_from_scratch.Condvar.{
  returned, to_int, Event, wait, signal, broadcast, go, idle, step,
}
use threading_from_scratch.Condvar.Threads.{start, turn, run}
use threading_from_scratch.Condvar.Counts.{is_waiting, locals, cond-counts}
use threading_from_scratch.Condvar.Progress.{Leaves}
use threading_from_scratch.Condvar.Calls.{keeps_waiting, cond-wakes}
use threading_from_scratch.Condvar.Errors.{cond_wait-errors}

-- Threads 0 and 1 wait in the kernel, thread 2 signals and broadcasts.
abbrev two_wait : List (ℕ × Event)
two_wait = (0, wait 7 ok) ∷ (0, go) ∷ (1, wait 7 ok) ∷ (1, go) ∷ []

-- Thread 0 leaves its wait.
abbrev one_wakes : List (ℕ × Event)
one_wakes = (0, go) ∷ (0, go) ∷ []

abbrev both : List (ℕ × Event)
both = (0, wait 7 ok) ∷ (0, go) ∷ (1, wait 7 ok) ∷ (1, go) ∷ (2, signal) ∷ (2, broadcast) ∷ []

two_asleep : (run sleepers 3 two_wait (start sleepers)).mem.waiters ≡ 2
unfolding run step
two_asleep = refl

cond-counts_example :
    (tally is_waiting (run sleepers 3 both (start sleepers)).pc 3
      ≡ (run sleepers 3 both (start sleepers)).mem.waiters)
    × ((run sleepers 3 both (start sleepers)).mem.signal_num
        ≤ (run sleepers 3 both (start sleepers)).mem.waiters)
    × ((i : ℕ)
        → is_waiting ((run sleepers 3 both (start sleepers)).pc i) ≡ true
        → (locals ((run sleepers 3 both (start sleepers)).pc i)).mutex
          ≡ (run sleepers 3 both (start sleepers)).mem.mutex)
    × ((run sleepers 3 both (start sleepers)).mem.mutex ≡ 0
        → (run sleepers 3 both (start sleepers)).mem.waiters ≡ 0)
    × ((run sleepers 3 both (start sleepers)).mem.waiters ≡ 0
        → (run sleepers 3 both (start sleepers)).mem.mutex ≡ 0)
cond-counts_example = cond-counts sleepers 3 both (omega arith)

cond-wakes_example :
    let signaled = turn sleepers 3 (2, signal) (run sleepers 3 two_wait (start sleepers)) in
    let told = turn sleepers 3 (2, broadcast) (run sleepers 3 two_wait (start sleepers)) in
    (0 < signaled.mem.signal_num)
    × (0 < (run sleepers 3 one_wakes signaled).mem.signal_num
        → (u : ℕ) × (is_waiting ((run sleepers 3 one_wakes signaled).pc u) ≡ true)
          × Leaves sleepers 3 u (run sleepers 3 one_wakes signaled))
    × (keeps_waiting sleepers 3 1 one_wakes told ≡ true
        → Leaves sleepers 3 1 (run sleepers 3 one_wakes told))
unfolding run turn step
cond-wakes_example =
    cond-wakes sleepers 3 (omega arith) two_wait one_wakes 1 2 (omega arith) (omega arith) refl refl

cond_wait-errors_run :
    ((run sleepers 3 two_wait (start sleepers)).mem.waiters ≢ 0
      → (run sleepers 3 two_wait (start sleepers)).mem.mutex ≢ 9
      → step sleepers (wait 8 ok) 2 (run sleepers 3 two_wait (start sleepers)).mem idle
        ≡ ((run sleepers 3 two_wait (start sleepers)).mem, returned (err einval)))
    × (((run sleepers 3 two_wait (start sleepers)).mem.waiters ≢ 0
          → (run sleepers 3 two_wait (start sleepers)).mem.mutex ≡ 9)
        → step sleepers (wait 8 (err eperm)) 2 (run sleepers 3 two_wait (start sleepers)).mem idle
          ≡ ((run sleepers 3 two_wait (start sleepers)).mem, returned (err eperm)))
    × ((run sleepers 3 two_wait (start sleepers)).mem.waiters ≡ 0
        → (run sleepers 3 two_wait (start sleepers)).mem.mutex ≡ 0)
cond_wait-errors_run = cond_wait-errors sleepers 3 two_wait 2 8 eperm ok (omega arith)

-- Thread 0 is signaled before it gets to FUTEX_WAIT: it returns -EAGAIN.
woken_early :
    (run sleepers 3
        ((0, wait 7 ok) ∷ (2, signal) ∷ (0, go) ∷ (0, go) ∷ (0, go) ∷ [])
        (start sleepers)).pc
      0
    ≡ returned (err eagain)
unfolding run step
woken_early = refl

-- Two threads that wait, one signal: one returns, the other one goes on to wait.
one_signal :
    ((run sleepers 3
          ((0, wait 7 ok)
            ∷ (0, go)
            ∷ (1, wait 7 ok)
            ∷ (1, go)
            ∷ (2, signal)
            ∷ (0, go)
            ∷ (0, go)
            ∷ (0, go)
            ∷ (1, go)
            ∷ [])
          (start sleepers)).pc
        0
      ≡ returned ok)
unfolding run step
one_signal = refl

-- The copy of a sequence number of 2^31 and more is another number.
seq_truncated : from_int (to_int (2 ^ 31)) ≡ 2 ^ 64 - 2 ^ 31
seq_truncated = refl
