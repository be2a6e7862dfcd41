-- ===== src/Futex/Progress.antt =====
-- tb-mutexes.c, lines 83-106: no wake-up is lost.
use threading_from_scratch.Prelude.{
  ℕ,
  suc,
  ◌≤◌,
  ◌<◌,
  ◌≡◌,
  refl,
  inl,
  inr,
  true,
  false,
  List,
  [],
  ◌∷◌,
  length,
  arith,
  Threads.{tally-none},
}
use native.Mathlib.Decide.{dec_lt}
use threading_from_scratch.Kernel.{Kernel, wake_one}
use threading_from_scratch.Futex.{
  Pc, idle, locking, waiting, in_kernel, holding, waking, Event, go, step,
}
use threading_from_scratch.Futex.Threads.{System, start, turn, run}
use threading_from_scratch.Futex.Invariant.{is_holding, is_awake, Inv, reached-Inv, turn-Inv}

-- The threads of the list go on in turn, each by one step that is no call and no interruption.
abbrev pub go_on : List ℕ → List (ℕ × Event)
go_on [] = []
go_on (i ∷ is) = (i, go) ∷ go_on is

module _ (k : Kernel) (n : ℕ) where
  open k use {Queue, sleeping}

  -- After at most `m` such steps some thread has the lock.
  abbrev pub Soon : ℕ → System Queue → Type 0
  Soon m s =
      (ys : List ℕ) × (length ys ≤ m) × (j : ℕ) × (is_holding ((run k n (go_on ys) s).pc j) ≡ true)

  later : (m : ℕ) (s : System Queue) (i : ℕ) → Soon m (turn k n (i, go) s) → Soon (suc m) s
  unfolding run
  later m s i (ys, few, j, h) = (i ∷ ys, omega arith, j, h)

  locking-Soon : (s : System Queue) (j : ℕ) → j < n → s.mem.futex ≡ 0 → s.pc j ≡ locking → Soon 1 s
  unfolding run turn step
  locking-Soon s j lt free at = (j ∷ [], omega arith, j, ground arith)

  module _ {s : System Queue} (inv : Inv k n s) (free : s.mem.futex ≡ 0) where
    below : (j : ℕ) (p : Pc) → s.pc j ≡ p → (p ≡ idle → ⊥) → j < n
    below j p at d = elim (dec_lt j n) [ yes lt ↦ lt | no ge ↦ ground (arith, inv.quiet j) ]

    waiting-Soon : (j : ℕ) → s.pc j ≡ waiting → Soon 2 s
    unfolding turn step
    waiting-Soon j at =
        let lt = below j waiting at (λ e. cc) in
        later 1 s j (locking-Soon _ j lt (ground arith) (ground arith))

    woken-Soon : (j : ℕ) → s.pc j ≡ in_kernel → sleeping s.mem.queue j ≡ false → Soon 2 s
    unfolding turn step
    woken-Soon j at up =
        let lt = below j in_kernel at (λ e. cc) in
        later 1 s j (locking-Soon _ j lt (ground arith) (ground arith))

  waking-Soon :
      {s : System Queue}
      → Inv k n s
      → s.mem.futex ≡ 0
      → (j t : ℕ) → s.pc j ≡ waking
      → sleeping s.mem.queue t ≡ true
      → Soon 3 s
  unfolding turn step
  waking-Soon {s} inv free j t at asleep =
      let (u, before, after) = k.wake_some wake_one t s.mem.queue (omega arith) asleep in
      let lt = below inv free j waking at (λ e. cc) in
      later 2 s j (
        woken-Soon (turn-Inv k n s (j, go) inv) (ground arith) u
          (ground (arith, inv.asleep u before)) (ground arith))

  weaken : {m : ℕ} (s : System Queue) → m ≤ 3 → Soon m s → Soon 3 s
  weaken s le (ys, few, j, h) = (ys, omega arith, j, h)

  awake-Soon :
      {s : System Queue}
      → Inv k n s
      → s.mem.futex ≡ 0
      → (j t : ℕ) (p : Pc) → s.pc j ≡ p
      → is_awake (sleeping s.mem.queue j) p ≡ true
      → sleeping s.mem.queue t ≡ true
      → Soon 3 s
  awake-Soon inv free j t idle at up asleep = cc
  awake-Soon {s} inv free j t locking at up asleep =
      weaken s (omega arith) (locking-Soon s j (below inv free j locking at (λ e. cc)) free at)
  awake-Soon {s} inv free j t waiting at up asleep =
      weaken s (omega arith) (waiting-Soon inv free j at)
  awake-Soon {s} inv free j t in_kernel at up asleep =
      weaken s (omega arith) (woken-Soon inv free j at (ground arith))
  awake-Soon inv free j t holding at up asleep = cc
  awake-Soon inv free j t waking at up asleep = waking-Soon inv free j t at asleep

  -- After any schedule that leaves a thread asleep in FUTEX_WAIT while no thread has the lock,
  -- there are at most three further steps, none of them a call or an interruption, after which some
  -- thread has it.
  pub no_lost_wakeup :
      (xs : List (ℕ × Event)) (t : ℕ)
      → sleeping (run k n xs (start k)).mem.queue t ≡ true
      → ((i : ℕ) → is_holding ((run k n xs (start k)).pc i) ≡ false)
      → Soon 3 (run k n xs (start k))
  no_lost_wakeup xs t asleep nobody =
      let inv = reached-Inv k n xs in
      let none_held = tally-none is_holding (run k n xs (start k)).pc n nobody in
      elim (inv.live t asleep) [
        | inl held ↦ absurd (omega (arith, none_held, inv.held))
        | inr (j, up) ↦ awake-Soon inv (omega (arith, none_held, inv.held)) j t _ refl up asleep
      ]
