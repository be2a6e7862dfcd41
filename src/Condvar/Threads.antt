-- ===== src/Condvar/Threads.antt =====
-- Threads over one condition variable of tb-condvar.c, interleaved by a schedule.
use threading_from_scratch.Prelude.{ℕ, ltb, if◌then◌else◌, List, [], ◌∷◌, Threads.{put}}
use threading_from_scratch.Kernel.{Kernel}
use threading_from_scratch.Condvar.{Cond, Pc, Event, step}

pub record System (Queue : Type 0) : Type 0 where
  pub mem : Cond Queue
  pub pc : ℕ → Pc

module _ (k : Kernel) where
  open k use {Queue, nobody}

  -- TBTHREAD_COND_INITIALIZER, and all threads outside.
  abbrev pub start : System Queue
  start = record {
    mem = record {
      futex = 0;
      waiters = 0;
      signal_num = 0;
      broadcast_seq = 0;
      mutex = 0;
      queue = nobody;
    };
    pc = λ _. Pc.idle;
  }

  module _ (n : ℕ) where
    -- Only the threads below `n` exist.
    unfoldable pub turn : ℕ × Event → System Queue → System Queue
    turn (i, e) s =
        let (m, p) = step k e i s.mem (s.pc i) in
        if ltb i n then record { mem = m; pc = put s.pc i p } else s

    unfoldable pub run : List (ℕ × Event) → System Queue → System Queue
    unfolding turn
    run [] s = s
    run (x ∷ xs) s = run xs (turn x s)
