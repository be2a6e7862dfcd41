-- ===== src/Monitor/Heard.antt =====
-- tb-condvar.c, lines 29-113, with tb-mutexes.c: no consumer waits for a flag that is set and
-- announced, and who comes out of the wait has the mutex.
use threading_from_scratch.Prelude.{
  ℕ, suc, ◌+◌, ◌^◌, ◌≤◌, ◌<◌, ◌≡◌, ◌≢◌, refl, inl, inr, Bool, true, false, ltb, ltb→lt, Bool-cases,
  List, [], ◌∷◌, length, subst, sym, arith,
}
use threading_from_scratch.Kernel.{Kernel, max_threads}
use threading_from_scratch.Sched.{Scheduler}
use threading_from_scratch.Mutex.{State}
use threading_from_scratch.Condvar
use threading_from_scratch.Condvar.{Cond, Locals, Pc, waiting, in_kernel, woken, to_int}
use threading_from_scratch.Condvar.Counts.{is_waiting, locals}
use threading_from_scratch.Condvar.Wakeups.{Ready}
use threading_from_scratch.Condvar.Threads.{System}
use threading_from_scratch.Monitor.{in_wait, testing, Event, go, step}
use threading_from_scratch.Monitor.Threads.{Programs, waits_of, start, turn, run}
use threading_from_scratch.Monitor.Mutexes.{IsPlain}
use threading_from_scratch.Monitor.Refined.{turn-waits_of, cond_turn}
use threading_from_scratch.Monitor.Flags.{has_mutex, owner_of, is_relocking, relock_free}
use threading_from_scratch.Monitor.Refined.{cond_schedule, run-waits_of, length-cond_schedule}
use threading_from_scratch.Monitor.Told.{is_announcing, Told, step-Told}
use threading_from_scratch.Condvar.Progress.{
  turn-Ready, start-Ready, reached_run, news-Leaves, Leaves,
}
use threading_from_scratch.Condvar.Counts.{turn-Inv, start-Inv}

module _ (k : Kernel) (sys : Scheduler) (memory : Bool) (a n : ℕ) (few : n ≤ max_threads) where
  open k use {Queue}

  turn-Told :
      (t : ℕ) (s : Programs Queue) (x : ℕ × Event)
      → t < 2 ^ 31
      → Condvar.Counts.Inv k n (waits_of s)
      → Ready k n t (waits_of s)
      → Told k sys memory a s
      → Told k sys memory a (turn k sys memory a n x s)
  unfolding turn
  turn-Told t s (i, e) short inv re told = elim (Bool-cases (ltb i n)) [
    | inl lt ↦ rw lt (step-Told k sys memory a few short inv re told e i (ltb→lt i n lt))
    | inr ge ↦ rw ge told
  ]

  run-Told :
      (t : ℕ) (s : Programs Queue) (xs : List (ℕ × Event))
      → t + length xs < 2 ^ 31
      → Condvar.Counts.Inv k n (waits_of s)
      → Ready k n t (waits_of s)
      → Told k sys memory a s
      → Told k sys memory a (run k sys memory a n xs s)
  unfolding run
  run-Told t s [] short inv re told = told
  run-Told t s (x ∷ xs) short inv re told =
      let same = turn-waits_of k sys memory a n x s in
      run-Told (suc t) (turn k sys memory a n x s) xs (omega arith)
        (rw same (turn-Inv k n (waits_of s) (cond_turn k sys memory a n x s) few inv))
        (rw same
          (turn-Ready k n t (waits_of s) (cond_turn k sys memory a n x s) few (omega arith) inv re))
        (turn-Told t s x (omega arith) inv re told)

  module _ (state : State) (plain : IsPlain (state.mutexes a)) (free : (state.mutexes a).owner ≡ 0)
      (xs : List (ℕ × Event)) (short : length xs < 2 ^ 31) where
    abbrev now : Programs Queue
    now = run k sys memory a n xs (start k sys memory a state)

    start-Told : Told k sys memory a (start k sys memory a state)
    start-Told = record {
      plain = plain;
      owner = λ i. (λ e. absurd (omega (arith, e, free)), λ e. cc);
      fit = λ i. refl;
      unset = λ i e. cc;
      news = λ i e. cc;
    }

    reached : Told k sys memory a now
    reached =
        run-Told 0 (start k sys memory a state) xs (omega arith) (start-Inv k n) (start-Ready k n)
          start-Told

    -- Consumers lock the mutex, wait on the condition variable while a flag is not set, and unlock;
    -- producers lock it, set the flag, broadcast and unlock. After any schedule of fewer than 2^31
    -- events of at most 2^31 - 1 such threads, over a free mutex that is not recursive: once the
    -- flag is set and no producer stands between the setting and its broadcast, every thread that
    -- waits in tbthread_cond_wait leaves its wait with at most two steps of its own.
    pub flag_is_heard :
        now.mem.ready ≡ true
        → ((j : ℕ) → is_announcing (now.place j) ≡ false)
        → (i : ℕ) → is_waiting (now.pc i) ≡ true
        → Leaves k n i (waits_of now)
    flag_is_heard set calm i w =
        let ys = cond_schedule k sys memory a n xs (start k sys memory a state) in
        let same = run-waits_of k sys memory a n xs (start k sys memory a state) in
        let brief : length ys < 2 ^ 31 =
          omega (arith, length-cond_schedule k sys memory a n xs (start k sys memory a state)) in
        elim (reached.news i w set) [
          | inl new ↦
              let P : System Queue → Type 0 = λ x.
                is_waiting (x.pc i) ≡ true
                → (locals (x.pc i)).bseq ≢ x.mem.broadcast_seq
                → Leaves k n i x in
              subst P (sym same)
                (news-Leaves k n (reached_run k n ys few brief).0 (reached_run k n ys few brief).1
                  brief i)
                w new
          | inr (j, tells) ↦ absurd (ground (arith, calm j))
        ]

    returns_now :
        (i : ℕ)
        → i < n
        → (step k sys memory a go i now.mem (now.place i) (now.pc i)).1 ≡ testing
        → owner_of k sys memory a (step k sys memory a go i now.mem (now.place i) (now.pc i)).0
          ≡ suc i
        → ((turn k sys memory a n (i, go) now).place i ≡ testing)
          × (owner_of k sys memory a (turn k sys memory a n (i, go) now).mem ≡ suc i)
    unfolding turn
    returns_now i lt at mine = ground arith

    -- In the same use and after any schedule, a thread has the mutex from the end of its
    -- tbthread_mutex_lock to its tbthread_mutex_unlock and no other one has it then, except while it
    -- is in tbthread_cond_wait, where it does not have it; and a thread that is to return from there
    -- does so with its next step, and has the mutex then, if no thread has it.
    pub wait_releases :
        (i : ℕ)
        → (has_mutex (now.place i) ≡ true
            → (owner_of k sys memory a now.mem ≡ suc i)
              × ((j : ℕ) → has_mutex (now.place j) ≡ true → i ≡ j))
          × (now.place i ≡ in_wait → owner_of k sys memory a now.mem ≢ suc i)
          × (is_relocking (now.pc i) ≡ true
              → owner_of k sys memory a now.mem ≡ 0
              → i < n
              → ((turn k sys memory a n (i, go) now).place i ≡ testing)
                × (owner_of k sys memory a (turn k sys memory a n (i, go) now).mem ≡ suc i))
    wait_releases i = (
      λ has. (
        (reached.owner i).1 has,
        λ j h. omega (arith, (reached.owner i).1 has, (reached.owner j).1 h),
      ),
      λ at mine. ground (arith, (reached.owner i).0 mine),
      λ r free lt.
          let (at, mine) =
            relock_free k sys memory a i now.mem (now.place i) (now.pc i) reached.plain free
              (reached.fit i) r in
          returns_now i lt at mine,
    )
