-- ===== src/RwLock.antt =====
-- tb-rwlock.c: the read-write lock, by any number of threads in any order. What stands between
-- tb_futex_lock and tb_futex_unlock of the lock's own futex is one step.
pub mod Threads
mod Invariant
mod Safety
mod Progress
mod Tests
use threading_from_scratch.Prelude.{
  ℕ,
  suc,
  ◌+◌,
  Bool,
  true,
  false,
  not,
  ◌&&◌,
  ◌==◌,
  if◌then◌else◌,
  Outcome.{Outcome, ok, err, ebusy},
  Words.{inc32, dec32},
}
use threading_from_scratch.Kernel.{Kernel, wake_one, wake_every}

-- `tbthread_rwlock_t` without its `lock`, and what the kernel keeps for its two futexes. A thread is
-- its number plus one, so that 0 is the null pointer.
pub record RwLock (Queue : Type 0) : Type 0 where
  pub writers_queued : ℕ
  pub rd_futex : ℕ
  pub wr_futex : ℕ
  pub writer : ℕ
  pub readers : ℕ
  pub rd_queue : Queue
  pub wr_queue : Queue

-- Where a thread stands.
pub data Pc : Type 0 where
  idle : Pc  -- outside, without the lock
  rd_loop : Pc  -- in rdlock, at the head of the loop
  rd_wait : (sleep_status : ℕ) → Pc  -- in rdlock, before FUTEX_WAIT
  rd_kernel : Pc  -- in rdlock, in FUTEX_WAIT
  reading : Pc  -- outside, with a read lock
  wr_loop : (queued : Bool) → Pc  -- in wrlock, at the head of the loop
  wr_wait : (sleep_status : ℕ) → Pc  -- in wrlock, before FUTEX_WAIT
  wr_kernel : Pc  -- in wrlock, in FUTEX_WAIT
  writing : Pc  -- outside, with the write lock

pub data Event : Type 0 where
  rdlock wrlock tryrdlock trywrlock unlock go interrupt : Event

after_try : Pc → Outcome → Pc
after_try p ok = p
after_try p (err e) = idle

module _ {Q : Type 0} where
  -- `!rwlock->writer && !rwlock->writers_queued`
  abbrev pub may_read : RwLock Q → Bool
  may_read m = m.writer == 0 && m.writers_queued == 0

  -- `!rwlock->writer && !rwlock->readers`
  abbrev pub may_write : RwLock Q → Bool
  may_write m = m.writer == 0 && m.readers == 0

  -- tbthread_rwlock_rdlock, lines 32-41.
  pub rdlock_section : RwLock Q → RwLock Q × Pc
  rdlock_section m =
      if may_read m
      then (record m { readers = inc32 m.readers }, reading)
      else (m, rd_wait m.rd_futex)

  pub enqueue : Bool → RwLock Q → RwLock Q
  enqueue queued m = if queued then m else record m { writers_queued = inc32 m.writers_queued }

  -- tbthread_rwlock_wrlock, lines 54-69.
  pub wrlock_section : ℕ → Bool → RwLock Q → RwLock Q × Pc
  unfolding enqueue
  wrlock_section i queued m =
      let m' = enqueue queued m in
      if may_write m'
      then (record m' { writer = suc i; writers_queued = dec32 m'.writers_queued }, writing)
      else (m', wr_wait m'.wr_futex)

  pub tbthread_rwlock_tryrdlock : RwLock Q → RwLock Q × Outcome
  tbthread_rwlock_tryrdlock m =
      if may_read m then (record m { readers = inc32 m.readers }, ok) else (m, err ebusy)

  pub tbthread_rwlock_trywrlock : ℕ → RwLock Q → RwLock Q × Outcome
  tbthread_rwlock_trywrlock i m =
      if may_write m then (record m { writer = suc i }, ok) else (m, err ebusy)

module _ (k : Kernel) where
  open k use {Queue, sleeping, sleep, leave, wake}

  -- Lines 84-85 and 95-96: let one queued writer look again.
  pub wake_writer : RwLock Queue → RwLock Queue
  wake_writer m = record m { wr_futex = inc32 m.wr_futex; wr_queue = wake wake_one m.wr_queue }

  -- Lines 87-88: let all waiting readers look again.
  pub wake_readers : RwLock Queue → RwLock Queue
  wake_readers m = record m { rd_futex = inc32 m.rd_futex; rd_queue = wake wake_every m.rd_queue }

  -- Lines 82-90.
  pub unlock_writer : RwLock Queue → RwLock Queue
  unfolding wake_writer wake_readers
  unlock_writer m =
      let m' = record m { writer = 0 } in
      if not (m'.writers_queued == 0) then wake_writer m' else wake_readers m'

  -- Lines 93-97.
  pub unlock_reader : RwLock Queue → RwLock Queue
  unfolding wake_writer
  unlock_reader m =
      let m' = record m { readers = dec32 m.readers } in
      if m'.readers == 0 && not (m'.writers_queued == 0) then wake_writer m' else m'

  pub tbthread_rwlock_unlock : RwLock Queue → RwLock Queue
  unfolding unlock_writer unlock_reader
  tbthread_rwlock_unlock m = if not (m.writer == 0) then unlock_writer m else unlock_reader m

  -- FUTEX_WAIT of lines 43 and 71, at its entry: it returns at once if the futex has moved on.
  pub rdlock_wait : ℕ → ℕ → RwLock Queue → RwLock Queue × Pc
  rdlock_wait i sleep_status m =
      if m.rd_futex == sleep_status
      then (record m { rd_queue = sleep i m.rd_queue }, rd_kernel)
      else (m, rd_loop)

  pub wrlock_wait : ℕ → ℕ → RwLock Queue → RwLock Queue × Pc
  wrlock_wait i sleep_status m =
      if m.wr_futex == sleep_status
      then (record m { wr_queue = sleep i m.wr_queue }, wr_kernel)
      else (m, wr_loop true)

  -- One event of thread `i`. An event that does not fit its place changes nothing: a thread unlocks
  -- only what it has locked.
  unfoldable pub step : Event → ℕ → RwLock Queue → Pc → RwLock Queue × Pc
  unfolding rdlock_section wrlock_section tbthread_rwlock_tryrdlock tbthread_rwlock_trywrlock
      after_try tbthread_rwlock_unlock rdlock_wait wrlock_wait
  step rdlock i m idle = (m, rd_loop)
  step wrlock i m idle = (m, wr_loop false)
  step tryrdlock i m idle = let (m', r) = tbthread_rwlock_tryrdlock m in (m', after_try reading r)
  step trywrlock i m idle = let (m', r) = tbthread_rwlock_trywrlock i m in (m', after_try writing r)
  step unlock i m reading = (tbthread_rwlock_unlock m, idle)
  step unlock i m writing = (tbthread_rwlock_unlock m, idle)
  step go i m rd_loop = rdlock_section m
  step go i m (rd_wait st) = rdlock_wait i st m
  step go i m rd_kernel = if sleeping m.rd_queue i then (m, rd_kernel) else (m, rd_loop)
  step go i m (wr_loop queued) = wrlock_section i queued m
  step go i m (wr_wait st) = wrlock_wait i st m
  step go i m wr_kernel = if sleeping m.wr_queue i then (m, wr_kernel) else (m, wr_loop true)
  step interrupt i m rd_kernel = (record m { rd_queue = leave i m.rd_queue }, rd_loop)
  step interrupt i m wr_kernel = (record m { wr_queue = leave i m.wr_queue }, wr_loop true)
  step _ i m p = (m, p)
