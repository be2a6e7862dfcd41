-- ===== src/RwLock/Tests.antt =====
-- tb-rwlock.c: runs of a few threads over one lock.
use threading_from_scratch.Prelude.{
  ℕ,
  zero,
  suc,
  ◌≡◌,
  ◌⊎◌,
  ◌↔◌,
  refl,
  true,
  false,
  List,
  [],
  ◌∷◌,
  arith,
  Threads.{tally},
}
use threading_from_scratch.Kernel.{sleepers}
use threading_from_scratch.RwLock.{
  idle, writing, wr_kernel, rd_kernel, Event, rdlock, wrlock, tryrdlock, trywrlock, unlock, go,
  step,
}
use threading_from_scratch.RwLock.Threads.{start, turn, run}
use threading_from_scratch.RwLock.Invariant.{is_reading, is_writing, is_queued}
use threading_from_scratch.RwLock.Safety.{writer_excludes, fields_count}
use threading_from_scratch.RwLock.Progress.{
  Writes, reader_sleeps_for_writer, free_lock_is_taken, queued_writer_first,
}

-- Thread 0 writes; thread 1 waits to write and thread 2 to read, both asleep.
abbrev busy : List (ℕ × Event)
busy =
    (0, wrlock) ∷ (0, go) ∷ (1, wrlock) ∷ (1, go) ∷ (1, go) ∷ (2, rdlock) ∷ (2, go) ∷ (2, go) ∷ []

-- Thread 0 has unlocked.
abbrev freed : List (ℕ × Event)
freed =
    (0, wrlock)
    ∷ (0, go)
    ∷ (1, wrlock)
    ∷ (1, go)
    ∷ (1, go)
    ∷ (2, rdlock)
    ∷ (2, go)
    ∷ (2, go)
    ∷ (0, unlock)
    ∷ []

both_asleep :
    ((run sleepers 3 busy (start sleepers)).pc 1 ≡ wr_kernel)
    × ((run sleepers 3 busy (start sleepers)).pc 2 ≡ rd_kernel)
unfolding run step
both_asleep = (refl, refl)

writer_excludes_example :
    (is_reading ((run sleepers 3 busy (start sleepers)).pc 2) ≡ false)
    × (is_writing ((run sleepers 3 busy (start sleepers)).pc 2) ≡ true → ◌≡◌ {A = ℕ} 0 2)
unfolding run step
writer_excludes_example = writer_excludes sleepers 3 busy (omega arith) 0 2 refl

fields_count_run :
    ((run sleepers 3 busy (start sleepers)).mem.readers
      ≡ tally is_reading (run sleepers 3 busy (start sleepers)).pc 3)
    × ((run sleepers 3 busy (start sleepers)).mem.writers_queued
        ≡ tally is_queued (run sleepers 3 busy (start sleepers)).pc 3)
    × ((i : ℕ)
        → ((run sleepers 3 busy (start sleepers)).mem.writer ≡ suc i)
          ↔ (is_writing ((run sleepers 3 busy (start sleepers)).pc i) ≡ true))
fields_count_run = fields_count sleepers 3 busy (omega arith)

reader_sleeps_for_writer_example :
    (j : ℕ) × ((is_writing ((run sleepers 3 busy (start sleepers)).pc j) ≡ true)
      ⊎ (is_queued ((run sleepers 3 busy (start sleepers)).pc j) ≡ true))
unfolding run step
reader_sleeps_for_writer_example =
    reader_sleeps_for_writer sleepers 3 busy (omega arith) (omega arith) 2 refl

nobody :
    (i : ℕ)
    → (is_reading ((run sleepers 3 freed (start sleepers)).pc i) ≡ false)
      × (is_writing ((run sleepers 3 freed (start sleepers)).pc i) ≡ false)
unfolding run step
nobody zero = (refl, refl)
nobody (suc zero) = (refl, refl)
nobody (suc (suc zero)) = (refl, refl)
nobody (suc (suc (suc i))) = ground arith

free_lock_is_taken_example :
    (u : ℕ) × (is_queued ((run sleepers 3 freed (start sleepers)).pc u) ≡ true)
    × Writes sleepers 3 2 u (run sleepers 3 freed (start sleepers))
unfolding run step
free_lock_is_taken_example =
    free_lock_is_taken sleepers 3 freed (omega arith) (omega arith) nobody 1 refl

-- Thread 0 reads and thread 1 waits to write: thread 0 unlocking leaves thread 2 out, and so on.
abbrev read_busy : List (ℕ × Event)
read_busy = (0, rdlock) ∷ (0, go) ∷ (1, wrlock) ∷ (1, go) ∷ (2, tryrdlock) ∷ []

queued_writer_first_example : is_reading ((run sleepers 3 read_busy (start sleepers)).pc 0) ≡ true
unfolding run turn step
queued_writer_first_example =
    queued_writer_first sleepers 3 read_busy (omega arith) 1 refl (2, tryrdlock) 0 refl

try_write : (run sleepers 3 ((0, trywrlock) ∷ []) (start sleepers)).pc 0 ≡ writing
unfolding run step
try_write = refl

try_read_fails :
    (run sleepers 3 ((0, trywrlock) ∷ (1, tryrdlock) ∷ []) (start sleepers)).pc 1 ≡ idle
unfolding run step
try_read_fails = refl
