-- ===== src/RwLock/Safety.antt =====
-- tb-rwlock.c: what the lock excludes, and what its fields say.
use threading_from_scratch.Prelude.{
  ℕ,
  suc,
  ◌≤◌,
  ◌<◌,
  ◌≡◌,
  ◌↔◌,
  ◌⊎◌,
  true,
  false,
  List,
  arith,
  Threads.{tally, tally_pos, tally_find},
}
use native.Mathlib.Decide.{dec_lt}
use threading_from_scratch.Kernel.{Kernel, max_threads}
use threading_from_scratch.RwLock.{Event}
use threading_from_scratch.RwLock.Threads.{System, start, run}
use threading_from_scratch.RwLock.Invariant.{
  is_reading, is_writing, is_queued, Counts, reached-Counts,
}

module _ (k : Kernel) (n : ℕ) (xs : List (ℕ × Event)) (few : n ≤ max_threads) where
  abbrev pub reached : System k.Queue
  reached = run k n xs (start k)

  inv : Counts k n reached
  inv = reached-Counts k n xs few

  below : (i : ℕ) → (is_reading (reached.pc i) ≡ true) ⊎ (is_writing (reached.pc i) ≡ true) → i < n
  below i h = elim (dec_lt i n) [ yes lt ↦ lt | no ge ↦ ground (arith, inv.quiet i) ]

  -- After any schedule of fewer than 2^31 threads over one read-write lock, a thread that has the
  -- write lock is the only one that has a lock: no thread reads, and no other writes.
  pub writer_excludes :
      (i j : ℕ)
      → is_writing (reached.pc i) ≡ true
      → (is_reading (reached.pc j) ≡ false) × (is_writing (reached.pc j) ≡ true → i ≡ j)
  writer_excludes i j wi = ground (
    arith,
    inv.owner i,
    inv.owner j,
    inv.exclusive,
    inv.readers,
    tally_pos is_reading reached.pc n j,
    inv.quiet j,
  )

  -- After any schedule of fewer than 2^31 threads over one read-write lock, `readers` is the number
  -- of threads with a read lock, `writers_queued` that of the threads that wait in wrlock, and
  -- `writer` is a thread exactly when that thread has the write lock.
  pub fields_count :
      (reached.mem.readers ≡ tally is_reading reached.pc n)
      × (reached.mem.writers_queued ≡ tally is_queued reached.pc n)
      × ((i : ℕ) → (reached.mem.writer ≡ suc i) ↔ (is_writing (reached.pc i) ≡ true))
  fields_count = (
    omega (arith, inv.readers),
    omega (arith, inv.queued),
    λ i. (
      λ e.
          let (j, lt, w) = tally_find is_writing reached.pc n (ground (arith, inv.writers)) in
          ground (arith, inv.owner j),
      inv.owner i,
    ),
  )
