-- ===== src/RwLock/Invariant/Futexes.antt =====
-- tb-rwlock.c: who sleeps on `rd_futex` and `wr_futex`, and what the threads have read of them.
use threading_from_scratch.Prelude.{
  ℕ, ◌+◌, ◌^◌, ◌≤◌, ◌<◌, ◌≡◌, ◌⊎◌, Bool, true, false, not, ◌==◌, arith,
}
use threading_from_scratch.Kernel.{Kernel, wake_one, wake_every}
use threading_from_scratch.RwLock.{
  RwLock, Pc, idle, rd_wait, rd_kernel, wr_loop, wr_wait, wr_kernel, Event, step, may_read,
}
use threading_from_scratch.RwLock.Threads.{System}
use threading_from_scratch.RwLock.Invariant.Fields.{is_queued, Before}

-- A queued writer that will look at the lock again without being woken.
abbrev pub is_restless : (wr_futex : ℕ) → (asleep : Bool) → Pc → Bool
is_restless f asleep (wr_loop queued) = queued
is_restless f asleep (wr_wait st) = not (f == st)
is_restless f asleep wr_kernel = not asleep
is_restless f asleep _ = false

module _ (k : Kernel) where
  open k use {Queue, sleeping, wake}

  abbrev pub Restless : RwLock Queue → (ℕ → Pc) → ℕ → Type 0
  Restless m pc j = is_restless m.wr_futex (sleeping m.wr_queue j) (pc j) ≡ true

  -- `t` bounds the futexes, which no step moves by more than one.
  pub record Sleep (n t : ℕ) (s : System Queue) : Type 0 where
    pub bounds : (s.mem.rd_futex ≤ t) × (s.mem.wr_futex ≤ t)
    pub rd_behind : (i st : ℕ) → s.pc i ≡ rd_wait st → st ≤ s.mem.rd_futex
    pub wr_behind : (i st : ℕ) → s.pc i ≡ wr_wait st → st ≤ s.mem.wr_futex
    pub rd_fresh : (i st : ℕ) → s.pc i ≡ rd_wait st → s.mem.rd_futex ≡ st → may_read s.mem ≡ false
    pub rd_asleep :
        (i : ℕ) → sleeping s.mem.rd_queue i ≡ true → (s.pc i ≡ rd_kernel) × (may_read s.mem ≡ false)
    pub wr_asleep : (i : ℕ) → sleeping s.mem.wr_queue i ≡ true → s.pc i ≡ wr_kernel
    pub wr_live :
        s.mem.writer ≡ 0
        → s.mem.readers ≡ 0
        → (j : ℕ) → is_queued (s.pc j) ≡ true
        → (u : ℕ) × Restless s.mem s.pc u

  module _ (e : Event) (i : ℕ) (m : RwLock Queue) (p : Pc) (n t : ℕ) (b : Before k n m p)
      (fits : t + 1 < 2 ^ 32) (rd : m.rd_futex ≤ t) (wr : m.wr_futex ≤ t) where
    abbrev pub m' : RwLock Queue
    m' = (step k e i m p).0

    abbrev pub p' : Pc
    p' = (step k e i m p).1

    -- Each futex stays, with its sleepers but for the mover, or moves on by one, with a wake-up.
    pub step-rd_futex :
        ((m'.rd_futex ≡ m.rd_futex) × (may_read m ≡ false → may_read m' ≡ false))
        ⊎ ((m'.rd_futex ≡ m.rd_futex + 1) × (m'.rd_queue ≡ wake wake_every m.rd_queue))
    unfolding step
    step-rd_futex = ground arith

    pub step-wr_futex :
        (m'.wr_futex ≡ m.wr_futex)
        ⊎ ((m'.wr_futex ≡ m.wr_futex + 1) × (m'.wr_queue ≡ wake wake_one m.wr_queue) × (p' ≡ idle))
    unfolding step
    step-wr_futex = ground arith

    pub step-rd_wait :
        (st : ℕ)
        → p' ≡ rd_wait st
        → (m'.rd_futex ≡ m.rd_futex) × ((p ≡ p') ⊎ ((st ≡ m.rd_futex) × (may_read m' ≡ false)))
    unfolding step
    step-rd_wait st h = ground arith

    pub step-wr_wait :
        (st : ℕ) → p' ≡ wr_wait st → (m'.wr_futex ≡ m.wr_futex) × ((p ≡ p') ⊎ (st ≡ m.wr_futex))
    unfolding step
    step-wr_wait st h = ground arith

    pub step-rd_sleeper :
        (j : ℕ) → sleeping m'.rd_queue j ≡ true → (i ≡ j) ⊎ (sleeping m.rd_queue j ≡ true)
    unfolding step
    step-rd_sleeper j h = ground (
      arith,
      k.sleeping-sleep i j m.rd_queue,
      k.sleeping-leave i j m.rd_queue,
      k.wake_old wake_every j m.rd_queue,
    )

    pub step-rd_sleeper_self :
        (sleeping m.rd_queue i ≡ true → (p ≡ rd_kernel) × (may_read m ≡ false))
        → ((st : ℕ) → p ≡ rd_wait st → m.rd_futex ≡ st → may_read m ≡ false)
        → sleeping m'.rd_queue i ≡ true
        → (p' ≡ rd_kernel) × (may_read m' ≡ false)
    unfolding step
    step-rd_sleeper_self old fresh h = ground (
      arith,
      old,
      fresh m.rd_futex,
      k.sleeping-leave i i m.rd_queue,
      k.wake_old wake_every i m.rd_queue,
    )

    pub step-wr_sleeper :
        (j : ℕ) → sleeping m'.wr_queue j ≡ true → (i ≡ j) ⊎ (sleeping m.wr_queue j ≡ true)
    unfolding step
    step-wr_sleeper j h = ground (
      arith,
      k.sleeping-sleep i j m.wr_queue,
      k.sleeping-leave i j m.wr_queue,
      k.wake_old wake_one j m.wr_queue,
    )

    pub step-wr_sleeper_self :
        (sleeping m.wr_queue i ≡ true → p ≡ wr_kernel)
        → sleeping m'.wr_queue i ≡ true
        → p' ≡ wr_kernel
    unfolding step
    step-wr_sleeper_self old h =
        ground (arith, old, k.sleeping-leave i i m.wr_queue, k.wake_old wake_one i m.wr_queue)

    -- If the lock is free after a step: it was free before, with `writers_queued` as it was, and the
    -- mover is as restless as before or more; or an unlock made it free, and woke a queued writer.
    pub step-free :
        m'.writer ≡ 0
        → m'.readers ≡ 0
        → ((m.writer ≡ 0)
            × (m.readers ≡ 0)
            × (m'.wr_futex ≡ m.wr_futex)
            × (is_queued p' ≡ is_queued p)
            × ((is_restless m.wr_futex (sleeping m.wr_queue i) p ≡ false)
                ⊎ (is_restless m'.wr_futex (sleeping m'.wr_queue i) p' ≡ true)))
          ⊎ ((is_queued p ≡ false)
              × (p' ≡ idle)
              × (m'.wr_futex ≡ m.wr_futex + 1)
              × (m'.wr_queue ≡ wake wake_one m.wr_queue))
          ⊎ ((p' ≡ idle) × (m'.writers_queued ≡ 0))
    unfolding step
    step-free w r = ground (arith, k.sleeping-leave i i m.wr_queue)
