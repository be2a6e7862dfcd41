-- ===== src/Inherit/Progress.antt =====
-- tb-mutexes.c, lines 226-275: no wake-up of a thread that waits for a priority-inherit mutex is
-- lost.
use threading_from_scratch.Prelude.{
  ℕ,
  ◌<◌,
  ◌≡◌,
  inl,
  inr,
  true,
  false,
  List,
  arith,
  Threads.{tally_pos, tally_find, tally-none},
}
use native.Mathlib.Decide.{ℕ_discrete}
use threading_from_scratch.Kernel.{Kernel, wake_one}
use threading_from_scratch.Futex
use threading_from_scratch.Futex.{Pc, idle, locking, waiting, in_kernel, holding, waking, Event, go}
use threading_from_scratch.Futex.Invariant.{is_holding}
use threading_from_scratch.Inherit.{rousing, move}
use threading_from_scratch.Inherit.Threads.{Threads, start, turn, run}
use threading_from_scratch.Inherit.Invariant.{is_owner, is_lending, Fields}
use threading_from_scratch.Inherit.Kept.{reached-Fields, turn-Fields}
use threading_from_scratch.Inherit.Wakeups.{is_awake, Wakeups, reached-Wakeups}
use threading_from_scratch.Inherit.Cases.{unlocks, section_cases}
use threading_from_scratch.Inherit.Retry.{
  Soon, later, weaken, marking-Soon, naming-Soon, section-Soon, not_owner, awake-Soon,
}

module _ (k : Kernel) (n : ℕ) where
  open k use {Queue, sleeping}

  -- The thread in the section of the internal futex gives it back, and then one of the threads that
  -- wait gets the mutex.
  unlock-Soon :
      {s : Threads Queue}
      → Fields k n s
      → s.mem.futex ≡ 0
      → (h u : ℕ) → h < n
      → unlocks (s.place h) ≡ true
      → s.pc h ≡ holding
      → is_awake (sleeping s.mem.queue u) (s.place u) ≡ true
      → Soon k n 7 s
  unfolding turn move Futex.step
  unlock-Soon {s} inv free h u lt at pc up =
      let word : s.mem.internal_futex.futex ≡ 1 =
        ground (arith, inv.locks.binary, inv.locks.held, tally_pos is_holding s.pc n h) in
      later k n 6 s h (
        awake-Soon k n (turn-Fields k n s (h, go) inv) (ground arith) (ground arith) u
          (ground arith))

  rousing-Soon :
      {s : Threads Queue}
      → Fields k n s
      → Wakeups k s
      → s.mem.futex ≡ 0
      → (h t : ℕ) → h < n
      → s.place h ≡ rousing
      → s.pc h ≡ holding
      → sleeping s.mem.queue t ≡ true
      → Soon k n 8 s
  unfolding turn move Futex.step
  rousing-Soon {s} inv wakes free h t lt at pc asleep =
      let (u, before, after) = k.wake_some wake_one t s.mem.queue (omega arith) asleep in
      let b = wakes.asleep u before in
      later k n 7 s h (
        unlock-Soon (turn-Fields k n s (h, go) inv) (ground arith) h u lt (ground arith)
          (ground arith) (ground arith))

  free-Soon :
      {s : Threads Queue}
      → Fields k n s
      → Wakeups k s
      → s.mem.futex ≡ 0
      → (t : ℕ) → sleeping s.mem.queue t ≡ true
      → Soon k n 8 s
  free-Soon {s} inv wakes free t asleep = elim (wakes.live t asleep) [
    | inl held ↦ absurd (omega (arith, held, free))
    | inr (u, up) ↦ elim (ℕ_discrete s.mem.internal_futex.futex 0) [
      | yes unlocked ↦ weaken k n 8 s (omega arith) (awake-Soon k n inv free unlocked u up)
      | no locked ↦
          let (h, lt, in_section) =
            tally_find is_holding s.pc n (omega (arith, locked, inv.locks.held)) in
          let pc : s.pc h ≡ holding = ground arith in
          let calm : is_lending (s.place h) ≡ false = ground (arith, inv.lends h) in
          let own = not_owner k n inv free h lt in
          elim (section_cases (s.place h) (s.pc h) pc (inv.fit h) own calm) [
            | inl (try, inl at) ↦
                weaken k n 8 s (omega arith) (section-Soon k n s h try lt free at pc)
            | inl (try, inr (inl at)) ↦ weaken k n 8 s (omega arith) (naming-Soon k n s h try lt at)
            | inl (try, inr (inr at)) ↦
                weaken k n 8 s (omega arith) (marking-Soon k n s h try lt at)
            | inr (inl at) ↦ weaken k n 8 s (omega arith) (unlock-Soon inv free h u lt at pc up)
            | inr (inr at) ↦ rousing-Soon inv wakes free h t lt at pc asleep
          ]
    ]
  ]

  -- After any schedule that leaves a thread asleep in FUTEX_WAIT of lock_prio_inherit while no thread
  -- has the priority-inherit mutex, there are at most eight further steps, none of them a call or an
  -- interruption, after which some thread has it.
  pub inherit_wakes :
      (xs : List (ℕ × Event)) (t : ℕ)
      → sleeping (run k n xs (start k)).mem.queue t ≡ true
      → ((i : ℕ) → is_owner ((run k n xs (start k)).place i) ≡ false)
      → Soon k n 8 (run k n xs (start k))
  inherit_wakes xs t asleep nobody =
      let inv = reached-Fields k n xs in
      let none_held = tally-none is_owner (run k n xs (start k)).place n nobody in
      free-Soon inv (reached-Wakeups k n xs) (omega (arith, none_held, inv.held)) t asleep
