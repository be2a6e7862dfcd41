-- ===== src/Once.antt =====
-- tb-threads.c, lines 419-473: tbthread_once, a shared access at a time, by any number of threads in
-- any order, of which any may be canceled while its cancelation is enabled.
pub mod Threads
mod Invariant
mod Safety
mod Exactly
mod Tests
use threading_from_scratch.Prelude.{ℕ, ◌+◌, Bool, true, false, ◌||◌, ◌==◌, if◌then◌else◌}
use threading_from_scratch.Kernel.{Kernel, wake_every}

-- TB_ONCE_NEW, TB_ONCE_IN_PROGRESS and TB_ONCE_DONE
abbrev pub once_new : ℕ
once_new = 0

abbrev pub once_in_progress : ℕ
once_in_progress = 1

abbrev pub once_done : ℕ
once_done = 2

-- The `tbthread_once_t`, what the kernel keeps for it, and how often the function has been called and
-- has returned.
pub record Once (Queue : Type 0) : Type 0 where
  pub once : ℕ
  pub queue : Queue
  pub started : ℕ
  pub completed : ℕ

-- Where a thread stands.
pub data Pc : Type 0 where
  idle : Pc  -- outside
  refused : Pc  -- returned, with -EINVAL
  testing : Pc  -- before line 440
  swapping : Pc  -- before line 447, with cancelation disabled
  restoring : Pc  -- before line 449, the executor with its cleanup handler
  calling : Pc  -- before line 451
  running : Pc  -- in the function
  run_over : Pc  -- before line 453
  finishing : Pc  -- before line 456, with cancelation disabled
  done_waking : Pc  -- before line 457
  enabling : Pc  -- before line 458
  yielding : Pc  -- before line 462, with cancelation disabled
  waiting : Pc  -- before FUTEX_WAIT
  in_kernel : Pc  -- in FUTEX_WAIT
  rechecking : Pc  -- before line 469
  cleaning : Pc  -- canceled: in once_cleanup, before line 425
  cleanup_waking : Pc  -- in once_cleanup, before line 426
  returned : Pc  -- returned 0
  canceled : Pc  -- canceled, past its handlers

-- What a thread may do next: a call, its next step, the end of a wait without a wake, and going to
-- tbthread_exit as a canceled thread does.
pub data Event : Type 0 where
  call : (once func : ℕ) → Event
  go interrupt cancel : Event

module _ {Q : Type 0} where
  -- Line 440.
  pub test : Once Q → Pc
  test m = if m.once == once_done then returned else swapping

  -- Line 447.
  pub swap : Once Q → Once Q × Pc
  swap m =
      if m.once == once_new
      then (record m { once = once_in_progress }, restoring)
      else (m, yielding)

  -- Line 469.
  pub recheck : Once Q → Pc
  recheck m = if m.once == once_in_progress then waiting else testing

  pub start_func : Once Q → Once Q
  start_func m = record m { started = m.started + 1 }

  pub finish_func : Once Q → Once Q
  finish_func m = record m { completed = m.completed + 1 }

module _ (k : Kernel) where
  open k use {Queue, sleeping, sleep, leave, wake}

  -- Line 468, at its entry.
  pub once_wait : ℕ → Once Queue → Once Queue × Pc
  once_wait i m =
      if m.once == once_in_progress
      then (record m { queue = sleep i m.queue }, in_kernel)
      else (m, rechecking)

  -- Lines 457 and 426.
  pub once_wake : Once Queue → Once Queue
  once_wake m = record m { queue = wake wake_every m.queue }

  -- A thread is canceled, at a place where that is enabled or in the call that enables it again
  -- (lines 449, 458 and 462): tbthread_exit calls once_cleanup if the handler is pushed.
  pub cancel_at : ℕ → Once Queue → Pc → Once Queue × Pc
  cancel_at i m testing = (m, canceled)
  cancel_at i m restoring = (m, cleaning)
  cancel_at i m calling = (m, cleaning)
  cancel_at i m running = (m, cleaning)
  cancel_at i m run_over = (m, cleaning)
  cancel_at i m enabling = (m, canceled)
  cancel_at i m yielding = (m, canceled)
  cancel_at i m waiting = (m, canceled)
  cancel_at i m in_kernel = (record m { queue = leave i m.queue }, canceled)
  cancel_at i m rechecking = (m, canceled)
  cancel_at i m p = (m, p)

  -- One event of thread `i`; one that does not fit its place changes nothing.
  unfoldable pub step : Event → ℕ → Once Queue → Pc → Once Queue × Pc
  unfolding test swap recheck start_func finish_func once_wait once_wake cancel_at
  step (call once func) i m idle = (m, if once == 0 || func == 0 then refused else testing)
  step (call once func) i m returned = (m, if once == 0 || func == 0 then refused else testing)
  step cancel i m p = cancel_at i m p
  step go i m testing = (m, test m)
  step go i m swapping = swap m
  step go i m restoring = (m, calling)
  step go i m calling = (start_func m, running)
  step go i m running = (finish_func m, run_over)
  step go i m run_over = (m, finishing)
  step go i m finishing = (record m { once = once_done }, done_waking)
  step go i m done_waking = (once_wake m, enabling)
  step go i m enabling = (m, returned)
  step go i m yielding = (m, waiting)
  step go i m waiting = once_wait i m
  step go i m in_kernel = if sleeping m.queue i then (m, in_kernel) else (m, rechecking)
  step go i m rechecking = (m, recheck m)
  step go i m cleaning = (record m { once = once_new }, cleanup_waking)
  step go i m cleanup_waking = (once_wake m, canceled)
  step interrupt i m in_kernel = (record m { queue = leave i m.queue }, rechecking)
  step _ i m p = (m, p)
