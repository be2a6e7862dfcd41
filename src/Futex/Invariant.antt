-- ===== src/Futex/Invariant.antt =====
-- tb-mutexes.c, lines 83-106: what holds of the futex word, the sleepers and the threads after any
-- schedule.
use threading_from_scratch.Prelude.{
  ℕ,
  ◌+◌,
  ◌≤◌,
  ◌<◌,
  ◌≡◌,
  refl,
  ◌⊎◌,
  inl,
  inr,
  Bool,
  true,
  false,
  not,
  ltb,
  ltb→lt,
  ap,
  Bool-cases,
  List,
  [],
  ◌∷◌,
  arith,
  Threads.{put, bit, tally, tally-put, tally_pos, tally-none},
}
use threading_from_scratch.Kernel.{Kernel, wake_one}
use threading_from_scratch.Futex.{
  Lock, Pc, idle, locking, waiting, in_kernel, holding, waking, Event, step,
}
use threading_from_scratch.Futex.Threads.{System, start, turn, run}

abbrev pub is_holding : Pc → Bool
is_holding holding = true
is_holding _ = false

-- A thread that is in one of the functions and will go on without being woken.
abbrev pub is_awake : Bool → Pc → Bool
is_awake asleep locking = true
is_awake asleep waiting = true
is_awake asleep waking = true
is_awake asleep in_kernel = not asleep
is_awake asleep _ = false

module _ (k : Kernel) where
  open k use {Queue, sleeping}

  -- Some thread will go on, or the lock is held.
  abbrev pub Live : Lock Queue → (ℕ → Pc) → Type 0
  Live m pc = (m.futex ≡ 1) ⊎ ((j : ℕ) × (is_awake (sleeping m.queue j) (pc j) ≡ true))

  pub record Inv (n : ℕ) (s : System Queue) : Type 0 where
    pub binary : s.mem.futex ≤ 1
    pub held : tally is_holding s.pc n ≡ s.mem.futex
    pub quiet : (i : ℕ) → n ≤ i → s.pc i ≡ idle
    pub asleep : (i : ℕ) → sleeping s.mem.queue i ≡ true → s.pc i ≡ in_kernel
    pub live : (i : ℕ) → sleeping s.mem.queue i ≡ true → Live s.mem s.pc

  step-held :
      (e : Event) (i : ℕ) (m : Lock Queue) (p : Pc)
      → m.futex ≤ 1
      → bit (is_holding p) ≤ m.futex
      → ((step k e i m p).0.futex ≤ 1)
        × ((step k e i m p).0.futex + bit (is_holding p)
            ≡ m.futex + bit (is_holding (step k e i m p).1))
  unfolding step
  step-held e i m p b h = ground arith

  -- Only the mover falls asleep.
  step-asleep :
      (e : Event) (i : ℕ) (m : Lock Queue) (p : Pc) (j : ℕ)
      → sleeping (step k e i m p).0.queue j ≡ true
      → (i ≡ j) ⊎ (sleeping m.queue j ≡ true)
  unfolding step
  step-asleep e i m p j h = ground (
    arith,
    k.sleeping-sleep i j m.queue,
    k.sleeping-leave i j m.queue,
    k.wake_old wake_one j m.queue,
  )

  -- A mover that sleeps after its step is in the kernel.
  step-asleep_self :
      (e : Event) (i : ℕ) (m : Lock Queue) (p : Pc)
      → (sleeping m.queue i ≡ true → p ≡ in_kernel)
      → sleeping (step k e i m p).0.queue i ≡ true
      → (step k e i m p).1 ≡ in_kernel
  unfolding step
  step-asleep_self e i m p old h =
      ground (arith, old, k.sleeping-leave i i m.queue, k.wake_old wake_one i m.queue)

  step-live :
      (e : Event) (i : ℕ) (m : Lock Queue) (p : Pc)
      → m.futex ≤ 1
      → bit (is_holding p) ≤ m.futex
      → ((step k e i m p).0.futex ≡ 1)
        ⊎ (is_awake (sleeping (step k e i m p).0.queue i) (step k e i m p).1 ≡ true)
        ⊎ (((step k e i m p).0 ≡ m) × ((step k e i m p).1 ≡ p))
        ⊎ ((p ≡ waking) × ((step k e i m p).0.queue ≡ k.wake wake_one m.queue))
  unfolding step
  step-live e i m p b h = ground arith

  module _ {n : ℕ} {s : System Queue} (inv : Inv n s) (e : Event) (i : ℕ) (lt : i < n) where
    open inv use {binary, held, quiet, asleep, live}

    abbrev mem' : Lock Queue
    mem' = (step k e i s.mem (s.pc i)).0

    abbrev pc' : ℕ → Pc
    pc' = put s.pc i (step k e i s.mem (s.pc i)).1

    holder : bit (is_holding (s.pc i)) ≤ s.mem.futex
    holder = ground (arith, tally_pos is_holding s.pc n i)

    step-counts : (mem'.futex ≤ 1) × (tally is_holding pc' n ≡ mem'.futex)
    step-counts = omega (
      arith,
      step-held e i s.mem (s.pc i) binary holder,
      tally-put is_holding s.pc n i (step k e i s.mem (s.pc i)).1 lt,
    )

    step-in_kernel : (j : ℕ) → sleeping mem'.queue j ≡ true → pc' j ≡ in_kernel
    step-in_kernel j h = ground (
      arith,
      asleep j,
      step-asleep e i s.mem (s.pc i) j,
      step-asleep_self e i s.mem (s.pc i) (asleep i),
    )

    step-Live : (j : ℕ) → sleeping mem'.queue j ≡ true → Live mem' pc'
    step-Live j h = elim (step-live e i s.mem (s.pc i) binary holder) [
      | inl held_now ↦ inl held_now
      | inr (inl awake) ↦ inr (i, ground arith)
      | inr (inr (inl same)) ↦ elim (live j (rw (ap Lock.queue same.0) at h)) [
        | inl held_before ↦ inl (ground arith)
        | inr (u, awake) ↦ inr (u, ground arith)
      ]
      | inr (inr (inr woke)) ↦
          let old = k.wake_old wake_one j s.mem.queue (rw woke.1 at h) in
          let (u, before, after) = k.wake_some wake_one j s.mem.queue (omega arith) old in
          inr (u, ground (arith, asleep u before))
    ]

    step-Inv : Inv n (record { mem = mem'; pc = pc' })
    step-Inv = record {
      binary = step-counts.0;
      held = step-counts.1;
      quiet = λ j ge. ground (arith, quiet j);
      asleep = step-in_kernel;
      live = step-Live;
    }

  pub turn-Inv : (n : ℕ) (s : System Queue) (x : ℕ × Event) → Inv n s → Inv n (turn k n x s)
  unfolding turn
  turn-Inv n s (i, e) inv = elim (Bool-cases (ltb i n)) [
    | inl lt ↦ rw lt (step-Inv inv e i (ltb→lt i n lt))
    | inr ge ↦ rw ge inv
  ]

  pub start-Inv : (n : ℕ) → Inv n (start k)
  start-Inv n = record {
    binary = omega arith;
    held = tally-none is_holding _ n (λ i. refl);
    quiet = λ i ge. refl;
    asleep = λ i h. cc (k.sleeping-nobody i);
    live = λ i h. cc (k.sleeping-nobody i);
  }

  -- Every schedule keeps the invariant.
  pub run-Inv : (n : ℕ) (s : System Queue) (xs : List (ℕ × Event)) → Inv n s → Inv n (run k n xs s)
  unfolding run
  run-Inv n s [] inv = inv
  run-Inv n s (x ∷ xs) inv = run-Inv n (turn k n x s) xs (turn-Inv n s x inv)

  pub reached-Inv : (n : ℕ) (xs : List (ℕ × Event)) → Inv n (run k n xs (start k))
  reached-Inv n xs = run-Inv n (start k) xs (start-Inv n)
