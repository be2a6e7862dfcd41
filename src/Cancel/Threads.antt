-- ===== src/Cancel/Threads.antt =====
-- tb-cancel.c: callers that share one thread's cancelation, interleaved by a schedule.
use threading_from_scratch.Prelude.{
  ℕ,
  ltb,
  true,
  false,
  if◌then◌else◌,
  List,
  [],
  ◌∷◌,
  Threads.{put},
}
use threading_from_scratch.Cancel.{Target, Pc, Event, step}

pub record System : Type 0 where
  pub mem : Target
  pub pc : ℕ → Pc

-- A thread that starts: cancelation is enabled and deferred.
abbrev pub start : System
start = record {
  mem = record {
    status = record { enabled = true; deferred = true; canceling = false; canceled = false };
    signals = 0;
    pending = 0;
    exits = 0;
  };
  pc = λ _. Pc.idle;
}

module _ (n : ℕ) where
  -- Only the callers below `n` exist.
  unfoldable pub turn : ℕ × Event → System → System
  turn (i, e) s =
      let (m, p) = step e s.mem (s.pc i) in
      if ltb i n then record { mem = m; pc = put s.pc i p } else s

  unfoldable pub run : List (ℕ × Event) → System → System
  unfolding turn
  run [] s = s
  run (x ∷ xs) s = run xs (turn x s)
