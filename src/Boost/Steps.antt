-- ===== src/Boost/Steps.antt =====
-- Threads over one priority-inherit mutex, with their scheduling, interleaved by a schedule.
use threading_from_scratch.Prelude.{ℕ, ltb, if◌then◌else◌, List, [], ◌∷◌}
use threading_from_scratch.Kernel.{Kernel}
use threading_from_scratch.Futex.{Event}
use threading_from_scratch.Inherit
use threading_from_scratch.Sched.{Scheduler, Thread}
use threading_from_scratch.Boost.{next_call, make_call, lend}

pub record Boosted (Queue : Type 0) : Type 0 where
  pub threads : Inherit.Threads.Threads Queue
  pub scheds : ℕ → Thread
  pub lent : List ℕ

module _ (k : Kernel) (sys : Scheduler) (infos : ℕ → ℕ) (m n : ℕ) where
  open k use {Queue}

  -- No thread has the mutex.
  abbrev pub start : (ℕ → Thread) → Boosted Queue
  start scheds = record { threads = Inherit.Threads.start k; scheds = scheds; lent = [] }

  -- Only the threads below `n` exist.
  unfoldable pub turn : ℕ × Event → Boosted Queue → Boosted Queue
  unfolding make_call
  turn (i, e) s =
      let c = next_call e (s.threads.place i) (s.threads.pc i) in
      if ltb i n
      then record {
        threads = Inherit.Threads.turn k n (i, e) s.threads;
        scheds = make_call sys infos m c i s.threads.mem.owner s.scheds;
        lent = lend c (s.scheds i).sched_info s.lent;
      }
      else s

  unfoldable pub run : List (ℕ × Event) → Boosted Queue → Boosted Queue
  unfolding turn
  run [] s = s
  run (x ∷ xs) s = run xs (turn x s)
