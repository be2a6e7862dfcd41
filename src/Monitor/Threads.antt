-- ===== src/Monitor/Threads.antt =====
-- Consumers and producers over one condition variable and one mutex, interleaved by a schedule.
use threading_from_scratch.Prelude.{
  ℕ,
  Bool,
  false,
  ltb,
  if◌then◌else◌,
  List,
  [],
  ◌∷◌,
  Threads.{put},
}
use threading_from_scratch.Kernel.{Kernel}
use threading_from_scratch.Sched.{Scheduler}
use threading_from_scratch.Mutex.{State}
use threading_from_scratch.Condvar.{Pc}
use threading_from_scratch.Condvar.Threads
use threading_from_scratch.Condvar.Threads.{System}
use threading_from_scratch.Monitor.{Shared, Place, Event, step}

pub record Programs (Queue : Type 0) : Type 0 where
  pub mem : Shared Queue
  pub place : ℕ → Place
  pub pc : ℕ → Pc  -- in tbthread_cond_wait

-- What the programs are for the condition variable.
abbrev pub waits_of : {Q : Type 0} → Programs Q → System Q
waits_of s = record { mem = s.mem.cond; pc = s.pc }

module _ (k : Kernel) (sys : Scheduler) (memory : Bool) (a : ℕ) where
  open k use {Queue}

  -- TBTHREAD_COND_INITIALIZER, the flag not set, and all threads outside.
  abbrev pub start : State → Programs Queue
  start state = record {
    mem = record { cond = (Threads.start k).mem; state = state; ready = false };
    place = λ _. Place.outside;
    pc = λ _. Pc.idle;
  }

  module _ (n : ℕ) where
    -- Only the threads below `n` exist.
    unfoldable pub turn : ℕ × Event → Programs Queue → Programs Queue
    turn (i, e) s =
        let (m, place, p) = step k sys memory a e i s.mem (s.place i) (s.pc i) in
        if ltb i n then record { mem = m; place = put s.place i place; pc = put s.pc i p } else s

    unfoldable pub run : List (ℕ × Event) → Programs Queue → Programs Queue
    unfolding turn
    run [] s = s
    run (x ∷ xs) s = run xs (turn x s)
