-- ===== src/Condvar.antt =====
-- tb-condvar.c, lines 29-113: condition variables, by any number of threads in any order. What stands
-- between tb_futex_lock and tb_futex_unlock of the variable's own futex is one step.
pub mod Threads
pub mod Counts
pub mod Wakeups
pub mod Progress
mod Calls
mod Errors
mod Tests
use threading_from_scratch.Prelude.{
  ℕ,
  suc,
  ◌+◌,
  ◌-◌,
  ◌%◌,
  ◌^◌,
  Bool,
  true,
  false,
  not,
  ◌==◌,
  ltb,
  if◌then◌else◌,
  Outcome.{Outcome, ok, err, eagain, einval},
  Words.{inc32, inc64, dec64, from_int},
}
use threading_from_scratch.Kernel.{Kernel, wake_one, wake_every}

-- `tbthread_cond_t` without its `lock`, and what the kernel keeps for its futex. `mutex` is a pointer,
-- 0 if it is null.
pub record Cond (Queue : Type 0) : Type 0 where
  pub futex : ℕ
  pub waiters : ℕ
  pub signal_num : ℕ
  pub broadcast_seq : ℕ
  pub mutex : ℕ
  pub queue : Queue

-- The argument and the local variables of tbthread_cond_wait; `bseq` is the bit pattern of an `int`.
pub record Locals : Type 0 where
  pub mutex : ℕ
  pub bseq : ℕ
  pub futex : ℕ

-- Where a thread stands, with `st`.
pub data Pc : Type 0 where
  idle : Pc  -- outside
  waiting : Locals → Pc  -- before FUTEX_WAIT
  in_kernel : Locals → Pc  -- in FUTEX_WAIT
  woken : Locals → Outcome → Pc  -- before line 87
  relocking : (mutex : ℕ) → Outcome → Pc  -- before line 111
  returned : Outcome → Pc  -- returned from tbthread_cond_wait

-- What a thread may do next: a call, of which `wait` has the mutex, by its address less 1, and what
-- its unlock will return; its next step; and an end of FUTEX_WAIT without a wake, with -EINTR or another status.
pub data Event : Type 0 where
  wait : (mutex : ℕ) → (unlocked : Outcome) → Event
  signal broadcast go interrupt : Event
  give_up : Outcome → Event

-- Line 78, the assignment to an `int`.
abbrev pub to_int : ℕ → ℕ
to_int seq = seq % 2 ^ 32

module _ {Q : Type 0} where
  -- Lines 99-100 and 107-108.
  abbrev pub forget_mutex : Cond Q → Cond Q
  forget_mutex m = if m.waiters == 0 then record m { mutex = 0 } else m

  -- Lines 66-67.
  abbrev pub take_mutex : ℕ → Cond Q → Cond Q
  take_mutex x m = if m.mutex == 0 then record m { mutex = x } else m

  -- Lines 74-80.
  abbrev pub enter : ℕ → Outcome → Cond Q → Cond Q × Pc
  enter x ok m = (
    record m { waiters = inc64 m.waiters },
    waiting (record { mutex = x; bseq = to_int m.broadcast_seq; futex = m.futex }),
  )
  enter x (err e) m = (forget_mutex m, returned (err e))

  -- Lines 63-80 and 98-103.
  pub wait_section : ℕ → Outcome → Cond Q → Cond Q × Pc
  wait_section x unlocked m =
      let m' = take_mutex x m in
      if m'.mutex == x then enter x unlocked m' else (forget_mutex m', returned (err einval))

  -- Lines 106-108.
  abbrev pub leave_cond : Cond Q → Cond Q
  leave_cond m = forget_mutex (record m { waiters = dec64 m.waiters })

  -- Lines 87-95 and 105-110; line 93 compares an `int` with an `uint64_t`.
  pub woken_section : Locals → Outcome → Cond Q → Cond Q × Pc
  woken_section l st m =
      if not (m.signal_num == 0)
      then (leave_cond (record m { signal_num = dec64 m.signal_num }), relocking l.mutex st)
      else (if not (from_int l.bseq == m.broadcast_seq)
          then (leave_cond m, relocking l.mutex st)
          else (m, waiting l))

module _ (k : Kernel) where
  open k use {Queue, sleeping, sleep, leave, wake}

  pub tbthread_cond_broadcast : Cond Queue → Cond Queue
  tbthread_cond_broadcast m = if m.waiters == 0 then m else record m {
    futex = inc32 m.futex;
    broadcast_seq = inc64 m.broadcast_seq;
    queue = wake wake_every m.queue;
  }

  pub tbthread_cond_signal : Cond Queue → Cond Queue
  tbthread_cond_signal m = if m.waiters == m.signal_num then m else record m {
    futex = inc32 m.futex;
    signal_num = inc64 m.signal_num;
    queue = wake wake_one m.queue;
  }

  -- Line 83, at its entry.
  pub cond_wait : ℕ → Locals → Cond Queue → Cond Queue × Pc
  cond_wait i l m =
      if m.futex == l.futex
      then (record m { queue = sleep i m.queue }, in_kernel l)
      else (m, woken l (err eagain))

  -- One event of thread `i`; one that does not fit its place changes nothing.
  unfoldable pub step : Event → ℕ → Cond Queue → Pc → Cond Queue × Pc
  unfolding wait_section woken_section tbthread_cond_broadcast tbthread_cond_signal cond_wait
  step (wait x unlocked) i m idle = wait_section (suc x) unlocked m
  step (wait x unlocked) i m (returned st) = wait_section (suc x) unlocked m
  step signal i m idle = (tbthread_cond_signal m, idle)
  step signal i m (returned st) = (tbthread_cond_signal m, returned st)
  step broadcast i m idle = (tbthread_cond_broadcast m, idle)
  step broadcast i m (returned st) = (tbthread_cond_broadcast m, returned st)
  step go i m (waiting l) = cond_wait i l m
  step go i m (in_kernel l) = if sleeping m.queue i then (m, in_kernel l) else (m, woken l ok)
  step go i m (woken l st) = woken_section l st m
  step go i m (relocking x st) = (m, returned st)
  step interrupt i m (in_kernel l) =
      if sleeping m.queue i
      then (record m { queue = leave i m.queue }, waiting l)
      else (m, in_kernel l)
  step (give_up st) i m (in_kernel l) =
      if sleeping m.queue i
      then (record m { queue = leave i m.queue }, woken l st)
      else (m, in_kernel l)
  step _ i m p = (m, p)
