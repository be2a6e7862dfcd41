-- ===== src/Condvar/Counts.antt =====
-- tb-condvar.c, lines 29-113: the counters, and the mutex of those that wait.
use threading_from_scratch.Prelude.{
  ℕ,
  ◌+◌,
  ◌≤◌,
  ◌<◌,
  ◌≡◌,
  refl,
  inl,
  inr,
  Bool,
  true,
  false,
  ltb,
  ltb→lt,
  Bool-cases,
  List,
  [],
  ◌∷◌,
  arith,
  Threads.{put, bit, tally, tally-put, tally_pos, tally-none, tally-le},
}
use threading_from_scratch.Kernel.{Kernel, max_threads}
use threading_from_scratch.Condvar.{Cond, Locals, Pc, idle, waiting, in_kernel, woken, Event, step}
use threading_from_scratch.Condvar.Threads.{System, start, turn, run}

-- From line 77 to line 106.
abbrev pub is_waiting : Pc → Bool
is_waiting (waiting l) = true
is_waiting (in_kernel l) = true
is_waiting (woken l st) = true
is_waiting _ = false

abbrev pub locals : Pc → Locals
locals (waiting l) = l
locals (in_kernel l) = l
locals (woken l st) = l
locals _ = record { mutex = 0; bseq = 0; futex = 0 }

module _ (k : Kernel) where
  open k use {Queue, sleeping}

  pub record Inv (n : ℕ) (s : System Queue) : Type 0 where
    pub counted : tally is_waiting s.pc n ≡ s.mem.waiters
    pub pending : s.mem.signal_num ≤ s.mem.waiters
    pub quiet : (i : ℕ) → n ≤ i → s.pc i ≡ idle
    pub used : (i : ℕ) → is_waiting (s.pc i) ≡ true → (locals (s.pc i)).mutex ≡ s.mem.mutex
    pub unused : (s.mem.mutex ≡ 0 → s.mem.waiters ≡ 0) × (s.mem.waiters ≡ 0 → s.mem.mutex ≡ 0)

  pub step-waiters :
      (e : Event) (i : ℕ) (m : Cond Queue) (p : Pc)
      → m.waiters ≤ max_threads
      → bit (is_waiting p) ≤ m.waiters
      → m.signal_num ≤ m.waiters
      → ((step k e i m p).0.waiters + bit (is_waiting p)
          ≡ m.waiters + bit (is_waiting (step k e i m p).1))
        × ((step k e i m p).0.signal_num ≤ (step k e i m p).0.waiters)
  unfolding step
  step-waiters e i m p few h le = (ground arith, ground arith)

  step-mutex :
      (e : Event) (i : ℕ) (m : Cond Queue) (p : Pc)
      → m.waiters ≤ max_threads
      → bit (is_waiting p) ≤ m.waiters
      → (m.mutex ≡ 0 → m.waiters ≡ 0)
      → (m.waiters ≡ 0 → m.mutex ≡ 0)
      → (is_waiting p ≡ true → (locals p).mutex ≡ m.mutex)
      → (1 ≤ m.waiters → 1 ≤ (step k e i m p).0.waiters → (step k e i m p).0.mutex ≡ m.mutex)
        × (is_waiting (step k e i m p).1 ≡ true
            → (locals (step k e i m p).1).mutex ≡ (step k e i m p).0.mutex)
        × ((step k e i m p).0.mutex ≡ 0 → (step k e i m p).0.waiters ≡ 0)
        × ((step k e i m p).0.waiters ≡ 0 → (step k e i m p).0.mutex ≡ 0)
  unfolding step
  step-mutex e i m p few h z o u =
      (λ a b. ground arith, λ w. ground arith, λ w. ground arith, λ w. ground arith)

  module _ {n : ℕ} {s : System Queue} (few : n ≤ max_threads) (inv : Inv n s) (e : Event) (i : ℕ)
      (lt : i < n) where
    open inv use {counted, pending, quiet, used, unused}

    abbrev mem' : Cond Queue
    mem' = (step k e i s.mem (s.pc i)).0

    abbrev pc' : ℕ → Pc
    pc' = put s.pc i (step k e i s.mem (s.pc i)).1

    pub few_waiters : s.mem.waiters ≤ max_threads
    few_waiters = omega (arith, counted, tally-le is_waiting s.pc n)

    pub mover : bit (is_waiting (s.pc i)) ≤ s.mem.waiters
    mover = ground (arith, tally_pos is_waiting s.pc n i)

    step-counts : (tally is_waiting pc' n ≡ mem'.waiters) × (mem'.signal_num ≤ mem'.waiters)
    step-counts = omega (
      arith,
      step-waiters e i s.mem (s.pc i) few_waiters mover pending,
      counted,
      tally-put is_waiting s.pc n i (step k e i s.mem (s.pc i)).1 lt,
    )

    waiting-below :
        (f : ℕ → Pc) (j : ℕ) → ((u : ℕ) → n ≤ u → f u ≡ idle) → is_waiting (f j) ≡ true → j < n
    waiting-below f j h w = ground (arith, h j)

    step-quiet : (j : ℕ) → n ≤ j → pc' j ≡ idle
    step-quiet j ge = ground (arith, quiet j)

    step-used : (j : ℕ) → is_waiting (pc' j) ≡ true → (locals (pc' j)).mutex ≡ mem'.mutex
    step-used j w =
        let (keeps, own, _, _) =
          step-mutex e i s.mem (s.pc i) few_waiters mover unused.0 unused.1 (used i) in
        let after = tally_pos is_waiting pc' n j (waiting-below pc' j step-quiet w) w in
        let before = tally_pos is_waiting s.pc n j in
        ground (arith, keeps, own, used j, counted, step-counts.0, waiting-below pc' j step-quiet w)

    step-Inv : Inv n (record { mem = mem'; pc = pc' })
    step-Inv = record {
      counted = step-counts.0;
      pending = step-counts.1;
      quiet = step-quiet;
      used = step-used;
      unused =
          let (_, _, z, o) =
            step-mutex e i s.mem (s.pc i) few_waiters mover unused.0 unused.1 (used i) in
          (z, o);
    }

  pub turn-Inv :
      (n : ℕ) (s : System Queue) (x : ℕ × Event) → n ≤ max_threads → Inv n s → Inv n (turn k n x s)
  unfolding turn
  turn-Inv n s (i, e) few inv = elim (Bool-cases (ltb i n)) [
    | inl lt ↦ rw lt (step-Inv few inv e i (ltb→lt i n lt))
    | inr ge ↦ rw ge inv
  ]

  pub start-Inv : (n : ℕ) → Inv n (start k)
  start-Inv n = record {
    counted = tally-none is_waiting _ n (λ i. refl);
    pending = omega arith;
    quiet = λ i ge. refl;
    used = λ i h. ground arith;
    unused = (λ h. refl, λ h. refl);
  }

  pub run-Inv :
      (n : ℕ) (s : System Queue) (xs : List (ℕ × Event))
      → n ≤ max_threads
      → Inv n s
      → Inv n (run k n xs s)
  unfolding run
  run-Inv n s [] few inv = inv
  run-Inv n s (x ∷ xs) few inv = run-Inv n (turn k n x s) xs few (turn-Inv n s x few inv)

  -- After any schedule of at most 2^31 - 1 threads over one condition variable: `waiters` is the
  -- number of the threads that wait, `signal_num` is at most that, all of them wait with the
  -- mutex of the variable, and the variable has no mutex exactly if no thread waits.
  pub cond-counts :
      (n : ℕ) (xs : List (ℕ × Event))
      → n ≤ max_threads
      → let s = run k n xs (start k) in
        (tally is_waiting s.pc n ≡ s.mem.waiters)
        × (s.mem.signal_num ≤ s.mem.waiters)
        × ((i : ℕ) → is_waiting (s.pc i) ≡ true → (locals (s.pc i)).mutex ≡ s.mem.mutex)
        × (s.mem.mutex ≡ 0 → s.mem.waiters ≡ 0)
        × (s.mem.waiters ≡ 0 → s.mem.mutex ≡ 0)
  cond-counts n xs few =
      let inv = run-Inv n (start k) xs few (start-Inv n) in
      (inv.counted, inv.pending, inv.used, inv.unused.0, inv.unused.1)
