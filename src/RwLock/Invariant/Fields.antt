-- ===== src/RwLock/Invariant/Fields.antt =====
-- tb-rwlock.c: `readers`, `writers_queued` and `writer` tell the threads that read, queue and write.
use threading_from_scratch.Prelude.{
  ℕ,
  suc,
  ◌+◌,
  ◌≤◌,
  ◌<◌,
  ◌≡◌,
  refl,
  ◌⊎◌,
  inl,
  inr,
  Bool,
  true,
  false,
  not,
  ◌==◌,
  ltb,
  ltb→lt,
  Bool-cases,
  List,
  [],
  ◌∷◌,
  arith,
  Threads.{put, bit, tally, tally-put, tally_pos, tally-none, tally-le},
}
use threading_from_scratch.Kernel.{Kernel, max_threads}
use threading_from_scratch.RwLock.{
  RwLock, Pc, idle, reading, wr_loop, wr_wait, wr_kernel, writing, Event, step,
}
use threading_from_scratch.RwLock.Threads.{System, start, turn, run}

abbrev pub is_reading : Pc → Bool
is_reading reading = true
is_reading _ = false

abbrev pub is_writing : Pc → Bool
is_writing writing = true
is_writing _ = false

-- In wrlock, behind `queued = 1`.
abbrev pub is_queued : Pc → Bool
is_queued (wr_loop queued) = queued
is_queued (wr_wait _) = true
is_queued wr_kernel = true
is_queued _ = false

module _ (k : Kernel) where
  open k use {Queue}

  pub record Counts (n : ℕ) (s : System Queue) : Type 0 where
    pub few : n ≤ max_threads
    pub readers : tally is_reading s.pc n ≡ s.mem.readers
    pub queued : tally is_queued s.pc n ≡ s.mem.writers_queued
    pub writers : tally is_writing s.pc n ≡ bit (not (s.mem.writer == 0))
    pub exclusive : (s.mem.writer ≡ 0) ⊎ (s.mem.readers ≡ 0)
    pub owner : (i : ℕ) → is_writing (s.pc i) ≡ true → s.mem.writer ≡ suc i
    pub quiet : (i : ℕ) → n ≤ i → s.pc i ≡ idle

  -- What the tallies say of the mover.
  pub record Before (n : ℕ) (m : RwLock Queue) (p : Pc) : Type 0 where
    pub few : n ≤ max_threads
    pub reads : (bit (is_reading p) ≤ m.readers) × (m.readers ≤ n)
    pub queues : (bit (is_queued p) ≤ m.writers_queued) × (m.writers_queued ≤ n)
    pub writes : bit (is_writing p) ≤ bit (not (m.writer == 0))
    pub exclusive : (m.writer ≡ 0) ⊎ (m.readers ≡ 0)

  record After (m m' : RwLock Queue) (p p' : Pc) : Type 0 where
    reads : m'.readers + bit (is_reading p) ≡ m.readers + bit (is_reading p')
    queues : m'.writers_queued + bit (is_queued p) ≡ m.writers_queued + bit (is_queued p')
    writes :
        bit (not (m'.writer == 0)) + bit (is_writing p)
        ≡ bit (not (m.writer == 0)) + bit (is_writing p')
    exclusive : (m'.writer ≡ 0) ⊎ (m'.readers ≡ 0)

  step-After :
      (n : ℕ) (e : Event) (i : ℕ) (m : RwLock Queue) (p : Pc)
      → Before n m p
      → After m (step k e i m p).0 p (step k e i m p).1
  unfolding step
  step-After n e i m p b = ground arith

  step-owner_self :
      (n : ℕ) (e : Event) (i : ℕ) (m : RwLock Queue) (p : Pc)
      → Before n m p
      → (is_writing p ≡ true → m.writer ≡ suc i)
      → is_writing (step k e i m p).1 ≡ true
      → (step k e i m p).0.writer ≡ suc i
  unfolding step
  step-owner_self n e i m p b old h = ground (arith, old)

  -- A thread takes `writer` from nobody, and resets its own.
  step-owner :
      (n : ℕ) (e : Event) (i : ℕ) (m : RwLock Queue) (p : Pc)
      → Before n m p
      → (is_writing p ≡ true → m.writer ≡ suc i)
      → (j : ℕ) → m.writer ≡ suc j
      → ((step k e i m p).0.writer ≡ suc j) ⊎ (i ≡ j)
  unfolding step
  step-owner n e i m p b old j h = ground (arith, old)

  module _ {n : ℕ} {s : System Queue} (inv : Counts n s) (e : Event) (i : ℕ) (lt : i < n) where
    open inv use {few, readers, queued, writers, exclusive, owner, quiet}

    abbrev pub mem' : RwLock Queue
    mem' = (step k e i s.mem (s.pc i)).0

    abbrev pub p' : Pc
    p' = (step k e i s.mem (s.pc i)).1

    abbrev pub pc' : ℕ → Pc
    pc' = put s.pc i p'

    pub mover : Before n s.mem (s.pc i)
    mover = record {
      few = few;
      reads = ground (arith, tally_pos is_reading s.pc n i, tally-le is_reading s.pc n);
      queues = ground (arith, tally_pos is_queued s.pc n i, tally-le is_queued s.pc n);
      writes = ground (arith, tally_pos is_writing s.pc n i);
      exclusive = exclusive;
    }

    after : After s.mem mem' (s.pc i) p'
    after = step-After n e i s.mem (s.pc i) mover

    pub step-Counts : Counts n (record { mem = mem'; pc = pc' })
    step-Counts = record {
      few = few;
      readers = omega (arith, after, readers, tally-put is_reading s.pc n i p' lt);
      queued = omega (arith, after, queued, tally-put is_queued s.pc n i p' lt);
      writers = omega (arith, after.writes, writers, tally-put is_writing s.pc n i p' lt);
      exclusive = after.exclusive;
      owner = λ j h. ground (
        arith,
        owner j,
        step-owner n e i s.mem (s.pc i) mover (owner i) j,
        step-owner_self n e i s.mem (s.pc i) mover (owner i),
      );
      quiet = λ j ge. ground (arith, quiet j);
    }

  pub turn-Counts :
      (n : ℕ) (s : System Queue) (x : ℕ × Event) → Counts n s → Counts n (turn k n x s)
  unfolding turn
  turn-Counts n s (i, e) inv = elim (Bool-cases (ltb i n)) [
    | inl lt ↦ rw lt (step-Counts inv e i (ltb→lt i n lt))
    | inr ge ↦ rw ge inv
  ]

  pub start-Counts : (n : ℕ) → n ≤ max_threads → Counts n (start k)
  start-Counts n few = record {
    few = few;
    readers = tally-none is_reading _ n (λ i. refl);
    queued = tally-none is_queued _ n (λ i. refl);
    writers = tally-none is_writing _ n (λ i. refl);
    exclusive = inl refl;
    owner = λ i h. cc;
    quiet = λ i ge. refl;
  }

  run-Counts :
      (n : ℕ) (s : System Queue) (xs : List (ℕ × Event)) → Counts n s → Counts n (run k n xs s)
  unfolding run
  run-Counts n s [] inv = inv
  run-Counts n s (x ∷ xs) inv = run-Counts n (turn k n x s) xs (turn-Counts n s x inv)

  pub reached-Counts :
      (n : ℕ) (xs : List (ℕ × Event)) → n ≤ max_threads → Counts n (run k n xs (start k))
  reached-Counts n xs few = run-Counts n (start k) xs (start-Counts n few)
