-- ===== src/Once/Invariant.antt =====
-- tb-threads.c, lines 419-473: what holds of the word, the sleepers and the threads after any schedule.
use threading_from_scratch.Prelude.{
  ℕ,
  ◌+◌,
  ◌≤◌,
  ◌<◌,
  ◌≡◌,
  refl,
  ◌⊎◌,
  inl,
  inr,
  Bool,
  true,
  false,
  ◌==◌,
  ltb,
  ltb→lt,
  Bool-cases,
  List,
  [],
  ◌∷◌,
  arith,
  Threads.{put, bit, tally, tally-put, tally_pos, tally-none},
}
use threading_from_scratch.Kernel.{Kernel, wake_every, max_threads}
use threading_from_scratch.Once.{
  Once, Pc, idle, restoring, calling, running, run_over, finishing, done_waking, enabling,
  in_kernel, cleaning, cleanup_waking, returned, Event, step,
}
use threading_from_scratch.Once.Threads.{System, start, turn, run}

-- The thread that has swapped the word and has not set it again.
abbrev pub is_executor : Pc → Bool
is_executor restoring = true
is_executor calling = true
is_executor running = true
is_executor run_over = true
is_executor finishing = true
is_executor cleaning = true
is_executor _ = false

-- The function has returned to this thread, or this thread has seen that it has.
abbrev pub has_run : Pc → Bool
has_run run_over = true
has_run finishing = true
has_run _ = false

abbrev pub is_past : Pc → Bool
is_past done_waking = true
is_past enabling = true
is_past returned = true
is_past _ = false

-- A thread that is about to wake all sleepers.
abbrev pub is_waker : Pc → Bool
is_waker done_waking = true
is_waker cleanup_waking = true
is_waker _ = false

module _ (k : Kernel) where
  open k use {Queue, sleeping}

  step-once :
      (e : Event) (i : ℕ) (m : Once Queue) (p : Pc)
      → m.once ≤ 2
      → bit (is_executor p) ≤ bit (m.once == 1)
      → ((step k e i m p).0.once ≤ 2)
        × (bit ((step k e i m p).0.once == 1) + bit (is_executor p)
            ≡ bit (m.once == 1) + bit (is_executor (step k e i m p).1))
  unfolding step
  step-once e i m p b h = ground arith

  step-past :
      (e : Event) (i : ℕ) (m : Once Queue) (p : Pc)
      → bit (is_executor p) ≤ bit (m.once == 1)
      → (m.once ≡ 2 → (step k e i m p).0.once ≡ 2)
        × ((is_past p ≡ true → m.once ≡ 2)
            → is_past (step k e i m p).1 ≡ true
            → (step k e i m p).0.once ≡ 2)
  unfolding step
  step-past e i m p h = (λ d. ground arith, λ f g. ground arith)

  step-completed :
      (e : Event) (i : ℕ) (m : Once Queue) (p : Pc)
      → (m.once ≡ 2 → 1 ≤ m.completed)
      → (has_run p ≡ true → 1 ≤ m.completed)
      → (m.completed ≤ (step k e i m p).0.completed)
        × ((step k e i m p).0.once ≡ 2 → 1 ≤ (step k e i m p).0.completed)
        × (has_run (step k e i m p).1 ≡ true → 1 ≤ (step k e i m p).0.completed)
  unfolding step
  step-completed e i m p d h = (ground arith, ground arith, ground arith)

  step-asleep :
      (e : Event) (i : ℕ) (m : Once Queue) (p : Pc) (j : ℕ)
      → sleeping (step k e i m p).0.queue j ≡ true
      → (i ≡ j) ⊎ (sleeping m.queue j ≡ true)
  unfolding step
  step-asleep e i m p j h = ground (
    arith,
    k.sleeping-sleep i j m.queue,
    k.sleeping-leave i j m.queue,
    k.wake_old wake_every j m.queue,
  )

  step-asleep_self :
      (e : Event) (i : ℕ) (m : Once Queue) (p : Pc)
      → (sleeping m.queue i ≡ true → p ≡ in_kernel)
      → sleeping (step k e i m p).0.queue i ≡ true
      → (step k e i m p).1 ≡ in_kernel
  unfolding step
  step-asleep_self e i m p old h =
      ground (arith, old, k.sleeping-leave i i m.queue, k.wake_old wake_every i m.queue)

  -- The mover falls asleep only while the word says that the function runs; it sets the word to
  -- something else only to be a waker; and it stops being one by waking all.
  step-live :
      (e : Event) (i : ℕ) (m : Once Queue) (p : Pc) (j : ℕ)
      → m.once ≤ 2
      → sleeping (step k e i m p).0.queue j ≡ true
      → ((step k e i m p).0.once ≡ 1)
        ⊎ (is_waker (step k e i m p).1 ≡ true)
        ⊎ ((step k e i m p).0.queue ≡ k.wake wake_every m.queue)
        ⊎ (((step k e i m p).0.once ≡ m.once) × (sleeping m.queue j ≡ true) × (is_waker p ≡ false))
  unfolding step
  step-live e i m p j b h = ground (
    arith,
    k.sleeping-sleep i j m.queue,
    k.sleeping-leave i j m.queue,
    k.wake_old wake_every j m.queue,
  )

  -- The function runs, or a thread will wake the sleepers.
  abbrev pub Live : Once Queue → (ℕ → Pc) → Type 0
  Live m pc = (m.once ≡ 1) ⊎ ((j : ℕ) × (is_waker (pc j) ≡ true))

  pub record Inv (n : ℕ) (s : System Queue) : Type 0 where
    pub small : s.mem.once ≤ 2
    pub executor : tally is_executor s.pc n ≡ bit (s.mem.once == 1)
    pub done : s.mem.once ≡ 2 → 1 ≤ s.mem.completed
    pub ran : (i : ℕ) → has_run (s.pc i) ≡ true → 1 ≤ s.mem.completed
    pub past : (i : ℕ) → is_past (s.pc i) ≡ true → s.mem.once ≡ 2
    pub quiet : (i : ℕ) → n ≤ i → s.pc i ≡ idle
    pub asleep : (i : ℕ) → sleeping s.mem.queue i ≡ true → s.pc i ≡ in_kernel
    pub live : (i : ℕ) → sleeping s.mem.queue i ≡ true → Live s.mem s.pc

  module _ {n : ℕ} {s : System Queue} (few : n ≤ max_threads) (inv : Inv n s) (e : Event) (i : ℕ)
      (lt : i < n) where
    open inv use {small, executor, done, ran, past, quiet, asleep, live}

    abbrev mem' : Once Queue
    mem' = (step k e i s.mem (s.pc i)).0

    abbrev pc' : ℕ → Pc
    pc' = put s.pc i (step k e i s.mem (s.pc i)).1

    pub mover : bit (is_executor (s.pc i)) ≤ bit (s.mem.once == 1)
    mover = ground (arith, tally_pos is_executor s.pc n i)

    step-counts : (mem'.once ≤ 2) × (tally is_executor pc' n ≡ bit (mem'.once == 1))
    step-counts = omega (
      arith,
      step-once e i s.mem (s.pc i) small mover,
      tally-put is_executor s.pc n i (step k e i s.mem (s.pc i)).1 lt,
    )

    step-ran : (j : ℕ) → has_run (pc' j) ≡ true → 1 ≤ mem'.completed
    step-ran j h = ground (arith, step-completed e i s.mem (s.pc i) done (ran i), ran j)

    step-is_past : (j : ℕ) → is_past (pc' j) ≡ true → mem'.once ≡ 2
    step-is_past j h = ground (arith, step-past e i s.mem (s.pc i) mover, past j, past i)

    step-in_kernel : (j : ℕ) → sleeping mem'.queue j ≡ true → pc' j ≡ in_kernel
    step-in_kernel j h = ground (
      arith,
      asleep j,
      step-asleep e i s.mem (s.pc i) j,
      step-asleep_self e i s.mem (s.pc i) (asleep i),
    )

    sleeper-below : (u : ℕ) → sleeping s.mem.queue u ≡ true → u < n
    sleeper-below u h = ground (arith, asleep u, quiet u)

    step-Live : (j : ℕ) → sleeping mem'.queue j ≡ true → Live mem' pc'
    step-Live j h = elim (step-live e i s.mem (s.pc i) j small h) [
      | inl runs ↦ inl runs
      | inr (inl waker) ↦ inr (i, ground arith)
      | inr (inr (inl woke)) ↦
          let none = k.wake_all wake_every n s.mem.queue few sleeper-below j in ground arith
      | inr (inr (inr (same, before, other))) ↦ elim (live j before) [
        | inl ran_before ↦ inl (ground arith)
        | inr (u, waker) ↦ inr (u, ground arith)
      ]
    ]

    step-Inv : Inv n (record { mem = mem'; pc = pc' })
    step-Inv = record {
      small = step-counts.0;
      executor = step-counts.1;
      done = (step-completed e i s.mem (s.pc i) done (ran i)).1;
      ran = step-ran;
      past = step-is_past;
      quiet = λ j ge. ground (arith, quiet j);
      asleep = step-in_kernel;
      live = step-Live;
    }

  pub turn-Inv :
      (n : ℕ) (s : System Queue) (x : ℕ × Event) → n ≤ max_threads → Inv n s → Inv n (turn k n x s)
  unfolding turn
  turn-Inv n s (i, e) few inv = elim (Bool-cases (ltb i n)) [
    | inl lt ↦ rw lt (step-Inv few inv e i (ltb→lt i n lt))
    | inr ge ↦ rw ge inv
  ]

  pub start-Inv : (n : ℕ) → Inv n (start k)
  start-Inv n = record {
    small = omega arith;
    executor = tally-none is_executor _ n (λ i. refl);
    done = λ h. omega arith;
    ran = λ i h. ground arith;
    past = λ i h. ground arith;
    quiet = λ i ge. refl;
    asleep = λ i h. cc (k.sleeping-nobody i);
    live = λ i h. cc (k.sleeping-nobody i);
  }

  -- Every schedule keeps the invariant.
  pub run-Inv :
      (n : ℕ) (s : System Queue) (xs : List (ℕ × Event))
      → n ≤ max_threads
      → Inv n s
      → Inv n (run k n xs s)
  unfolding run
  run-Inv n s [] few inv = inv
  run-Inv n s (x ∷ xs) few inv = run-Inv n (turn k n x s) xs few (turn-Inv n s x few inv)

  pub reached-Inv : (n : ℕ) (xs : List (ℕ × Event)) → n ≤ max_threads → Inv n (run k n xs (start k))
  reached-Inv n xs few = run-Inv n (start k) xs few (start-Inv n)
