-- ===== src/Inherit/Threads.antt =====
-- Threads over one priority-inherit mutex of tb-mutexes.c, interleaved by a schedule.
use threading_from_scratch.Prelude.{ℕ, ltb, if◌then◌else◌, List, [], ◌∷◌, Threads.{put}}
use threading_from_scratch.Kernel.{Kernel}
use threading_from_scratch.Futex.{Pc, Event}
use threading_from_scratch.Futex.Threads.{System}
use threading_from_scratch.Inherit.{Mutex, Place, move}

pub record Threads (Queue : Type 0) : Type 0 where
  pub mem : Mutex Queue
  pub place : ℕ → Place
  pub pc : ℕ → Pc  -- with the internal futex

-- What the threads are for the internal futex.
abbrev pub internal : {Q : Type 0} → Threads Q → System Q
internal s = record { mem = s.mem.internal_futex; pc = s.pc }

module _ (k : Kernel) where
  open k use {Queue, nobody}

  -- The memset of tbthread_mutex_init, and all threads outside.
  abbrev pub start : Threads Queue
  start = record {
    mem = record {
      internal_futex = record { futex = 0; queue = nobody };
      futex = 0;
      owner = 0;
      queue = nobody;
    };
    place = λ _. Place.outside;
    pc = λ _. Pc.idle;
  }

  module _ (n : ℕ) where
    -- Only the threads below `n` exist.
    unfoldable pub turn : ℕ × Event → Threads Queue → Threads Queue
    turn (i, e) s =
        let (m, place, p) = move k e i s.mem (s.place i) (s.pc i) in
        if ltb i n then record { mem = m; place = put s.place i place; pc = put s.pc i p } else s

    unfoldable pub run : List (ℕ × Event) → Threads Queue → Threads Queue
    unfolding turn
    run [] s = s
    run (x ∷ xs) s = run xs (turn x s)
