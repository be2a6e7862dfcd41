-- ===== src/Inherit/Retry.antt =====
-- tb-mutexes.c, lines 226-275: how a thread that waits for a free priority-inherit mutex gets it.
use threading_from_scratch.Prelude.{
  ℕ,
  suc,
  ◌≤◌,
  ◌<◌,
  ◌≡◌,
  ◌≢◌,
  inl,
  inr,
  Bool,
  true,
  false,
  Bool-cases,
  List,
  [],
  ◌∷◌,
  length,
  arith,
  Threads.{tally_pos},
}
use native.Mathlib.Decide.{dec_lt}
use threading_from_scratch.Kernel.{Kernel, wake_one}
use threading_from_scratch.Futex
use threading_from_scratch.Futex.{Pc, idle, locking, waiting, in_kernel, holding, waking, Event, go}
use threading_from_scratch.Futex.Invariant.{is_holding}
use threading_from_scratch.Futex.Progress.{go_on}
use threading_from_scratch.Inherit.{outside, taking, naming, marking, leaving, blocked, move}
use threading_from_scratch.Inherit.Threads.{Threads, turn, run}
use threading_from_scratch.Inherit.Invariant.{is_owner, Fields}
use threading_from_scratch.Inherit.Kept.{turn-Fields}
use threading_from_scratch.Inherit.Wakeups.{is_awake}
use threading_from_scratch.Inherit.Cases.{
  in_lock, in_lock_cases, taking_cases, waking_cases, awake_cases, retry_cases,
}

module _ (k : Kernel) (n : ℕ) where
  open k use {Queue, sleeping}

  -- After at most `m` steps that are no call and no interruption some thread has the mutex.
  abbrev pub Soon : ℕ → Threads Queue → Type 0
  Soon m s =
      (ys : List ℕ) × (length ys ≤ m) × (j : ℕ) × (is_owner ((run k n (go_on ys) s).place j) ≡ true)

  pub later : (m : ℕ) (s : Threads Queue) (i : ℕ) → Soon m (turn k n (i, go) s) → Soon (suc m) s
  unfolding run
  later m s i (ys, few, j, h) = (i ∷ ys, omega arith, j, h)

  pub weaken : {m : ℕ} (l : ℕ) (s : Threads Queue) → m ≤ l → Soon m s → Soon l s
  weaken l s le (ys, few, j, h) = (ys, omega arith, j, h)

  pub marking-Soon :
      (s : Threads Queue) (j : ℕ) (try : Bool) → j < n → s.place j ≡ marking try → Soon 1 s
  unfolding run turn move
  marking-Soon s j try lt at = (j ∷ [], omega arith, j, ground arith)

  pub naming-Soon :
      (s : Threads Queue) (j : ℕ) (try : Bool) → j < n → s.place j ≡ naming try → Soon 2 s
  unfolding turn move
  naming-Soon s j try lt at = later 1 s j (marking-Soon _ j try lt (ground arith))

  pub section-Soon :
      (s : Threads Queue) (j : ℕ) (try : Bool)
      → j < n
      → s.mem.futex ≡ 0
      → s.place j ≡ taking try
      → s.pc j ≡ holding
      → Soon 3 s
  unfolding turn move
  section-Soon s j try lt free at in_section = later 2 s j (naming-Soon _ j try lt (ground arith))

  module _ (s : Threads Queue) (j : ℕ) (try : Bool) (lt : j < n) (free : s.mem.futex ≡ 0)
      (unlocked : s.mem.internal_futex.futex ≡ 0) (at : s.place j ≡ taking try) where
    locking-Soon : s.pc j ≡ locking → Soon 4 s
    unfolding turn move Futex.step
    locking-Soon pc =
        later 3 s j (section-Soon _ j try lt (ground arith) (ground arith) (ground arith))

  module _ (s : Threads Queue) (j : ℕ) (try : Bool) (lt : j < n) (free : s.mem.futex ≡ 0)
      (unlocked : s.mem.internal_futex.futex ≡ 0) (at : s.place j ≡ taking try) where
    waiting-Soon : s.pc j ≡ waiting → Soon 5 s
    unfolding turn move Futex.step
    waiting-Soon pc =
        later 4 s j
          (locking-Soon _ j try lt (ground arith) (ground arith) (ground arith) (ground arith))

    woken-Soon : s.pc j ≡ in_kernel → sleeping s.mem.internal_futex.queue j ≡ false → Soon 5 s
    unfolding turn move Futex.step
    woken-Soon pc up =
        later 4 s j
          (locking-Soon _ j try lt (ground arith) (ground arith) (ground arith) (ground arith))

  pub not_owner :
      {s : Threads Queue}
      → Fields k n s
      → s.mem.futex ≡ 0
      → (j : ℕ) → j < n
      → is_owner (s.place j) ≡ false
  not_owner {s} inv free j lt = ground (arith, inv.held, tally_pos is_owner s.place n j lt)

  -- With both words 0, a thread that waits for neither.
  module _ {s : Threads Queue} (inv : Fields k n s) (free : s.mem.futex ≡ 0)
      (unlocked : s.mem.internal_futex.futex ≡ 0) where
    below : (j : ℕ) → s.place j ≢ outside → j < n
    below j d = elim (dec_lt j n) [ yes lt ↦ lt | no ge ↦ absurd (d (inv.quiet j (omega arith))) ]

    no_owner : (j : ℕ) → is_owner (s.place j) ≡ false
    no_owner j = elim (dec_lt j n) [
      | yes lt ↦ not_owner inv free j lt
      | no ge ↦ ground (arith, inv.quiet j)
    ]

    no_section : (j : ℕ) → s.pc j ≢ holding
    no_section j h =
        let lt = below j (λ e. ground (arith, inv.fit j)) in
        ground (arith, inv.locks.held, tally_pos is_holding s.pc n j lt)

    -- Who is in tb_futex_lock tries to take the mutex.
    trying : (j : ℕ) → in_lock (s.pc j) ≡ true → (try : Bool) × (s.place j ≡ taking try)
    trying j h = taking_cases (s.place j) (s.pc j) (inv.fit j) (no_owner j) h

    up-Soon :
        (j : ℕ)
        → in_lock (s.pc j) ≡ true
        → Futex.Invariant.is_awake (sleeping s.mem.internal_futex.queue j) (s.pc j) ≡ true
        → Soon 5 s
    up-Soon j h up =
        let (try, at) = trying j h in
        let lt = below j (λ e. cc) in
        elim (in_lock_cases (s.pc j) h) [
          | inl pc ↦ weaken 5 s (omega arith) (locking-Soon s j try lt free unlocked at pc)
          | inr (inl pc) ↦ waiting-Soon s j try lt free unlocked at pc
          | inr (inr pc) ↦ woken-Soon s j try lt free unlocked at pc (ground arith)
        ]

  -- A thread that gave the internal futex back wakes one that sleeps for it.
  waking-Soon :
      {s : Threads Queue}
      → Fields k n s
      → s.mem.futex ≡ 0
      → s.mem.internal_futex.futex ≡ 0
      → (j t : ℕ) → s.pc j ≡ waking
      → sleeping s.mem.internal_futex.queue t ≡ true
      → Soon 6 s
  unfolding turn move Futex.step
  waking-Soon {s} inv free unlocked j t at asleep =
      let (u, before, after) =
        k.wake_some wake_one t s.mem.internal_futex.queue (omega arith) asleep in
      let lt = below inv free unlocked j (λ e. ground (arith, inv.fit j)) in
      let place = waking_cases (s.place j) (s.pc j) at (inv.fit j) (no_owner inv free unlocked j) in
      let pc = inv.locks.asleep u before in
      later 5 s j (
        up-Soon (turn-Fields k n s (j, go) inv) (ground arith) (ground arith) u (ground arith)
          (ground arith))

  -- Some thread tries to take the mutex: it, or one that tb_futex_unlock wakes for it, goes on.
  taking-Soon :
      {s : Threads Queue}
      → Fields k n s
      → s.mem.futex ≡ 0
      → s.mem.internal_futex.futex ≡ 0
      → (j : ℕ) → in_lock (s.pc j) ≡ true
      → Soon 6 s
  taking-Soon {s} inv free unlocked j h =
      elim (Bool-cases
        (Futex.Invariant.is_awake (sleeping s.mem.internal_futex.queue j) (s.pc j))) [
          | inl up ↦ weaken 6 s (omega arith) (up-Soon inv free unlocked j h up)
          | inr down ↦
              let asleep : sleeping s.mem.internal_futex.queue j ≡ true =
                ground (arith, in_lock_cases (s.pc j) h) in
              elim (inv.locks.live j asleep) [
                | inl locked ↦ absurd (omega (arith, locked, unlocked))
                | inr (u, up) ↦ elim (awake_cases _ (s.pc u) up) [
                  | inl w ↦ waking-Soon inv free unlocked u j w asleep
                  | inr l ↦ weaken 6 s (omega arith) (up-Soon inv free unlocked u l up)
                ]
              ]
        ]

  module _ (s : Threads Queue) (j : ℕ) (lt : j < n) (free : s.mem.futex ≡ 0)
      (unlocked : s.mem.internal_futex.futex ≡ 0) where
    -- FUTEX_WAIT of line 244 returns at once,
    retry-Soon : s.place j ≡ leaving false false → s.pc j ≡ idle → Soon 5 s
    unfolding turn move Futex.step
    retry-Soon at pc =
        later 4 s j
          (locking-Soon _ j false lt (ground arith) (ground arith) (ground arith) (ground arith))

    -- or returns after a wake-up.
    roused-Soon : s.place j ≡ blocked → s.pc j ≡ idle → sleeping s.mem.queue j ≡ false → Soon 5 s
    unfolding turn move Futex.step
    roused-Soon at pc up =
        later 4 s j
          (locking-Soon _ j false lt (ground arith) (ground arith) (ground arith) (ground arith))

  leaving-Soon :
      (s : Threads Queue) (j : ℕ)
      → j < n
      → s.mem.futex ≡ 0
      → s.mem.internal_futex.futex ≡ 0
      → s.place j ≡ leaving false false
      → s.pc j ≡ waking
      → Soon 6 s
  unfolding turn move Futex.step
  leaving-Soon s j lt free unlocked at pc =
      later 5 s j (retry-Soon _ j lt (ground arith) (ground arith) (ground arith) (ground arith))

  -- Who goes on in lock_prio_inherit or trylock_prio_inherit.
  pub awake-Soon :
      {s : Threads Queue}
      → Fields k n s
      → s.mem.futex ≡ 0
      → s.mem.internal_futex.futex ≡ 0
      → (j : ℕ) → is_awake (sleeping s.mem.queue j) (s.place j) ≡ true
      → Soon 6 s
  awake-Soon {s} inv free unlocked j up =
      let out = no_section inv free unlocked j in
      let lt = below inv free unlocked j (λ e. ground arith) in
      elim (retry_cases _ (s.place j) (s.pc j) (inv.fit j) out up) [
        | inl l ↦ taking-Soon inv free unlocked j l
        | inr (inl (at, pc)) ↦ weaken 6 s (omega arith) (retry-Soon s j lt free unlocked at pc)
        | inr (inr (inl (at, pc))) ↦ leaving-Soon s j lt free unlocked at pc
        | inr (inr (inr (at, pc, b))) ↦
            weaken 6 s (omega arith) (roused-Soon s j lt free unlocked at pc b)
      ]
