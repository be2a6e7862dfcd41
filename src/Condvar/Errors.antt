-- ===== src/Condvar/Errors.antt =====
-- tb-condvar.c, lines 61-75 and 98-103: the calls of tbthread_cond_wait that fail.
use threading_from_scratch.Prelude.{
  ℕ,
  suc,
  ◌≤◌,
  ◌≡◌,
  ◌≢◌,
  List,
  arith,
  Outcome.{Outcome, err, Errno, einval},
}
use threading_from_scratch.Kernel.{Kernel, max_threads}
use threading_from_scratch.Condvar.{Cond, idle, returned, Event, wait, wait_section, step}
use threading_from_scratch.Condvar.Threads.{start, run}
use threading_from_scratch.Condvar.Counts.{start-Inv, run-Inv}

module _ (k : Kernel) where
  open k use {Queue}

  wait_other :
      (m : Cond Queue) (i x : ℕ) (unlocked : Outcome)
      → (m.mutex ≡ 0 → m.waiters ≡ 0)
      → m.waiters ≢ 0
      → m.mutex ≢ suc x
      → step k (wait x unlocked) i m idle ≡ (m, returned (err einval))
  unfolding step wait_section
  wait_other m i x unlocked z used other = ground arith

  wait_refused :
      (m : Cond Queue) (i x : ℕ) (e : Errno)
      → (m.mutex ≡ 0 → m.waiters ≡ 0)
      → (m.waiters ≡ 0 → m.mutex ≡ 0)
      → (m.mutex ≢ 0 → m.mutex ≡ suc x)
      → step k (wait x (err e)) i m idle ≡ (m, returned (err e))
  unfolding step wait_section
  wait_refused m i x e z o same = ground arith

  -- After any schedule of at most 2^31 - 1 threads over one condition variable, a thread that is in no
  -- function calls tbthread_cond_wait: with another mutex than that of the threads that wait, it returns
  -- -EINVAL; otherwise, if the unlock of the mutex fails, it returns what that returned; in both cases
  -- it leaves the variable as it was, and its mutex free if no thread waits.
  pub cond_wait-errors :
      (n : ℕ) (xs : List (ℕ × Event)) (i x : ℕ) (e : Errno) (unlocked : Outcome)
      → n ≤ max_threads
      → let m = (run k n xs (start k)).mem in
        (m.waiters ≢ 0
          → m.mutex ≢ suc x
          → step k (wait x unlocked) i m idle ≡ (m, returned (err einval)))
        × ((m.waiters ≢ 0 → m.mutex ≡ suc x)
            → step k (wait x (err e)) i m idle ≡ (m, returned (err e)))
        × (m.waiters ≡ 0 → m.mutex ≡ 0)
  cond_wait-errors n xs i x e unlocked few =
      let inv = run-Inv k n (start k) xs few (start-Inv k n) in
      let m = (run k n xs (start k)).mem in
      (
        λ used other. wait_other m i x unlocked inv.unused.0 used other,
        λ same.
            wait_refused m i x e inv.unused.0 inv.unused.1 (λ d. same (λ z. d (inv.unused.1 z))),
        inv.unused.1,
      )
