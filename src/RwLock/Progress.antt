-- ===== src/RwLock/Progress.antt =====
-- tb-rwlock.c: no wake-up of a reader or a writer is lost, and writers come first.
use threading_from_scratch.Prelude.{
  ℕ,
  suc,
  ◌^◌,
  ◌≤◌,
  ◌<◌,
  ◌≡◌,
  ◌≢◌,
  refl,
  ◌⊎◌,
  inl,
  inr,
  Bool,
  true,
  false,
  List,
  length,
  replicate,
  arith,
  Threads.{tally_pos, tally_find, tally-none},
}
use native.Mathlib.Decide.{dec_lt, ℕ_discrete}
use threading_from_scratch.Kernel.{Kernel, max_threads}
use threading_from_scratch.RwLock.{RwLock, Pc, wr_loop, wr_wait, wr_kernel, Event, go, step}
use threading_from_scratch.RwLock.Threads.{System, start, turn, run}
use threading_from_scratch.RwLock.Invariant.{
  is_reading, is_writing, is_queued, is_restless, Counts, reached-Counts, Sleep, reached-Sleep,
}

module _ (k : Kernel) (n : ℕ) where
  -- Thread `j` goes on by `r` steps, `m` at most, and then has the write lock.
  abbrev pub Writes : ℕ → ℕ → System k.Queue → Type 0
  Writes m j s = (r : ℕ) × (r ≤ m) × (is_writing ((run k n (replicate r (j, go)) s).pc j) ≡ true)

  loop-Writes :
      (s : System k.Queue) (j : ℕ)
      → j < n
      → s.mem.writer ≡ 0
      → s.mem.readers ≡ 0
      → s.pc j ≡ wr_loop true
      → Writes 1 j s
  unfolding run step
  loop-Writes s j lt w r at = (1, omega arith, ground arith)

  later : (s : System k.Queue) (j : ℕ) → Writes 1 j (turn k n (j, go) s) → Writes 2 j s
  unfolding run
  later s j (r, few, w) = (suc r, omega arith, w)

  restless-Writes :
      (s : System k.Queue) (j : ℕ) (p : Pc)
      → j < n
      → s.mem.writer ≡ 0
      → s.mem.readers ≡ 0
      → s.pc j ≡ p
      → is_restless s.mem.wr_futex (k.sleeping s.mem.wr_queue j) p ≡ true
      → Writes 2 j s
  unfolding turn step
  restless-Writes s j (wr_loop queued) lt w r at h =
      let (m, few, e) = loop-Writes s j lt w r (ground arith) in (m, omega arith, e)
  restless-Writes s j (wr_wait st) lt w r at h =
      later s j (loop-Writes _ j lt (ground arith) (ground arith) (ground arith))
  restless-Writes s j wr_kernel lt w r at h =
      later s j (loop-Writes _ j lt (ground arith) (ground arith) (ground arith))
  restless-Writes s j p lt w r at h = cc

restless-queued : (f : ℕ) (a : Bool) (p : Pc) → is_restless f a p ≡ true → is_queued p ≡ true
restless-queued f a p h = ground arith

module _ (k : Kernel) (n : ℕ) (xs : List (ℕ × Event)) (few : n ≤ max_threads)
    (short : length xs < 2 ^ 32) where
  open k use {Queue, sleeping}

  abbrev pub now : System Queue
  now = run k n xs (start k)

  counts : Counts k n now
  counts = reached-Counts k n xs few

  sleep : Sleep k n (length xs) now
  sleep = reached-Sleep k n xs few short

  -- After any schedule of fewer than 2^31 threads and fewer than 2^32 events, a reader sleeps in
  -- FUTEX_WAIT only while some thread has the write lock or waits in wrlock.
  pub reader_sleeps_for_writer :
      (i : ℕ)
      → sleeping now.mem.rd_queue i ≡ true
      → (j : ℕ) × ((is_writing (now.pc j) ≡ true) ⊎ (is_queued (now.pc j) ≡ true))
  reader_sleeps_for_writer i asleep = elim (ℕ_discrete now.mem.writer 0) [
    | no w ↦
        let (j, lt, h) = tally_find is_writing now.pc n (ground (arith, counts.writers)) in
        (j, inl h)
    | yes w ↦
        let blocked = (sleep.rd_asleep i asleep).1 in
        let (j, lt, h) = tally_find is_queued now.pc n (ground (arith, counts.queued)) in (j, inr h)
  ]

  -- After any schedule of fewer than 2^31 threads and fewer than 2^32 events, if no thread has a lock
  -- and some thread waits in wrlock, then some thread that waits in wrlock gets the write lock by two
  -- steps of its own at most.
  pub free_lock_is_taken :
      ((i : ℕ) → (is_reading (now.pc i) ≡ false) × (is_writing (now.pc i) ≡ false))
      → (j : ℕ) → is_queued (now.pc j) ≡ true
      → (u : ℕ) × (is_queued (now.pc u) ≡ true) × Writes k n 2 u now
  free_lock_is_taken free j q =
      let no_reader = tally-none is_reading now.pc n (λ i. (free i).0) in
      let no_writer = tally-none is_writing now.pc n (λ i. (free i).1) in
      let w : now.mem.writer ≡ 0 = ground (arith, no_writer, counts.writers) in
      let r : now.mem.readers ≡ 0 = omega (arith, no_reader, counts.readers) in
      let (u, h) = sleep.wr_live w r j q in
      let queued = restless-queued _ _ (now.pc u) h in
      let lt : u < n = elim (dec_lt u n) [
        | yes lt ↦ lt
        | no ge ↦ absurd (ground (arith, queued, counts.quiet u))
      ] in
      (u, queued, restless-Writes k n now u _ lt w r refl h)

step-reading :
    (k : Kernel) (e : Event) (i : ℕ) (m : RwLock k.Queue) (p : Pc)
    → m.writers_queued ≢ 0
    → is_reading (step k e i m p).1 ≡ true
    → is_reading p ≡ true
unfolding step
step-reading k e i m p q h = ground arith

-- After any schedule of fewer than 2^31 threads, while some thread waits in wrlock no event gives a
-- read lock to a thread that has none.
pub queued_writer_first :
    (k : Kernel) (n : ℕ) (xs : List (ℕ × Event))
    → n ≤ max_threads
    → (j : ℕ) → is_queued ((run k n xs (start k)).pc j) ≡ true
    → (x : ℕ × Event) (i : ℕ) → is_reading ((turn k n x (run k n xs (start k))).pc i) ≡ true
    → is_reading ((run k n xs (start k)).pc i) ≡ true
unfolding turn
queued_writer_first k n xs few j q (t, e) i h =
    let s = run k n xs (start k) in
    let c = reached-Counts k n xs few in
    let lt : j < n = elim (dec_lt j n) [
      | yes lt ↦ lt
      | no ge ↦ absurd (ground (arith, c.quiet j))
    ] in
    let queued : s.mem.writers_queued ≢ 0 =
      λ e0. omega (arith, e0, c.queued, tally_pos is_queued s.pc n j lt q) in
    ground (arith, step-reading k e t s.mem (s.pc t) queued)
