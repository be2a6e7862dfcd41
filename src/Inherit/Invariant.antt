-- ===== src/Inherit/Invariant.antt =====
-- tb-mutexes.c, lines 226-275: what the fields of a priority-inherit mutex say of the threads.
use threading_from_scratch.Prelude.{ℕ, suc, ◌≤◌, ◌≡◌, Bool, true, false, Threads.{tally}}
use threading_from_scratch.Kernel.{Kernel}
use threading_from_scratch.Futex
use threading_from_scratch.Futex.{
  Lock, Pc, idle, locking, waiting, in_kernel, holding, waking, Event, lock, try_lock, unlock, go,
  interrupt,
}
use threading_from_scratch.Futex.Invariant
use threading_from_scratch.Inherit.{
  Place, outside, taking, lending, naming, marking, adding, leaving, blocked, owning, releasing,
  forgetting, clearing, rousing, ending,
}
use threading_from_scratch.Inherit.Threads.{Threads, internal}

-- Where a thread may stand with the internal futex, by its place.
abbrev pub agree : Place → Pc → Bool
agree outside idle = true
agree blocked idle = true
agree owning idle = true
agree (taking try) idle = false
agree (taking try) waking = false
agree (taking try) p = true
agree releasing idle = false
agree releasing waking = false
agree releasing p = true
agree (leaving try locked) holding = true
agree (leaving try locked) waking = true
agree (leaving try locked) idle = true
agree ending holding = true
agree ending waking = true
agree ending idle = true
agree lending holding = true
agree (naming try) holding = true
agree (marking try) holding = true
agree (adding try) holding = true
agree forgetting holding = true
agree clearing holding = true
agree rousing holding = true
agree place p = false

-- The thread has the mutex: from line 236 to line 271.
abbrev pub is_owner : Place → Bool
is_owner (adding try) = true
is_owner (leaving try true) = true
is_owner owning = true
is_owner releasing = true
is_owner forgetting = true
is_owner clearing = true
is_owner _ = false

-- `mutex->owner` is the thread: from line 235 to line 270.
abbrev pub is_named : Place → Bool
is_named (marking try) = true
is_named (adding try) = true
is_named (leaving try true) = true
is_named owning = true
is_named releasing = true
is_named forgetting = true
is_named _ = false

-- The thread has read 0 in line 233 or 254.
abbrev pub is_claiming : Place → Bool
is_claiming (naming try) = true
is_claiming (marking try) = true
is_claiming _ = false

abbrev pub is_lending : Place → Bool
is_lending lending = true
is_lending _ = false

module _ (k : Kernel) where
  open k use {Queue, sleeping}

  pub record Fields (n : ℕ) (s : Threads Queue) : Type 0 where
    pub locks : Futex.Invariant.Inv k n (internal s)
    pub fit : (i : ℕ) → agree (s.place i) (s.pc i) ≡ true
    pub binary : s.mem.futex ≤ 1
    pub held : tally is_owner s.place n ≡ s.mem.futex
    pub quiet : (i : ℕ) → n ≤ i → s.place i ≡ outside
    pub claims : (i : ℕ) → is_claiming (s.place i) ≡ true → s.mem.futex ≡ 0
    pub lends : (i : ℕ) → is_lending (s.place i) ≡ true → s.mem.futex ≡ 1
    pub named : (i : ℕ) → is_named (s.place i) ≡ true → s.mem.owner ≡ suc i
