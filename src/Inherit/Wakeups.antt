-- ===== src/Inherit/Wakeups.antt =====
-- tb-mutexes.c, lines 226-275: who sleeps on a priority-inherit mutex, and who will go on.
use threading_from_scratch.Prelude.{
  ℕ,
  ◌≤◌,
  ◌<◌,
  ◌≡◌,
  ◌⊎◌,
  inl,
  inr,
  Bool,
  true,
  false,
  not,
  ltb,
  ltb→lt,
  Bool-cases,
  List,
  [],
  ◌∷◌,
  arith,
  Threads.{put},
}
use threading_from_scratch.Kernel.{Kernel, wake_one}
use threading_from_scratch.Futex.{Pc, Event}
use threading_from_scratch.Inherit.{
  Mutex, Place, taking, lending, naming, marking, leaving, blocked, rousing, move,
}
use threading_from_scratch.Inherit.Threads.{Threads, start, turn, run}
use threading_from_scratch.Inherit.Invariant.{is_claiming, is_lending, Fields}
use threading_from_scratch.Inherit.Kept.{start-Fields, turn-Fields}

-- A thread that tries to take the mutex and has not read a 1 since, or that is going to wake one.
abbrev pub is_awake : (asleep : Bool) → Place → Bool
is_awake asleep (taking try) = true
is_awake asleep lending = true
is_awake asleep (naming try) = true
is_awake asleep (marking try) = true
is_awake asleep (leaving false false) = true
is_awake asleep blocked = not asleep
is_awake asleep rousing = true
is_awake asleep _ = false

module _ (k : Kernel) where
  open k use {Queue, sleeping}

  -- Some thread will go on, or the mutex is held.
  abbrev pub Live : Mutex Queue → (ℕ → Place) → Type 0
  Live m place = (m.futex ≡ 1) ⊎ ((j : ℕ) × (is_awake (sleeping m.queue j) (place j) ≡ true))

  pub record Wakeups (s : Threads Queue) : Type 0 where
    pub asleep : (i : ℕ) → sleeping s.mem.queue i ≡ true → s.place i ≡ blocked
    pub live : (i : ℕ) → sleeping s.mem.queue i ≡ true → Live s.mem s.place

  -- Only the mover falls asleep,
  move-asleep :
      (e : Event) (i : ℕ) (m : Mutex Queue) (place : Place) (p : Pc) (j : ℕ)
      → sleeping (move k e i m place p).0.queue j ≡ true
      → (i ≡ j) ⊎ (sleeping m.queue j ≡ true)
  unfolding move
  move-asleep e i m place p j h = ground (
    arith,
    k.sleeping-sleep i j m.queue,
    k.sleeping-leave i j m.queue,
    k.wake_old wake_one j m.queue,
  )

  -- and is in the kernel then.
  move-asleep_self :
      (e : Event) (i : ℕ) (m : Mutex Queue) (place : Place) (p : Pc)
      → (sleeping m.queue i ≡ true → place ≡ blocked)
      → sleeping (move k e i m place p).0.queue i ≡ true
      → (move k e i m place p).1 ≡ blocked
  unfolding move
  move-asleep_self e i m place p old h =
      ground (arith, old, k.sleeping-leave i i m.queue, k.wake_old wake_one i m.queue)

  move-live :
      (e : Event) (i : ℕ) (m : Mutex Queue) (place : Place) (p : Pc)
      → m.futex ≤ 1
      → (is_claiming place ≡ true → m.futex ≡ 0)
      → (is_lending place ≡ true → m.futex ≡ 1)
      → ((move k e i m place p).0.futex ≡ 1)
        ⊎ (is_awake (sleeping (move k e i m place p).0.queue i) (move k e i m place p).1 ≡ true)
        ⊎ (((move k e i m place p).0.futex ≡ m.futex)
            × ((move k e i m place p).0.queue ≡ m.queue)
            × (is_awake (sleeping m.queue i) place ≡ true
                → is_awake (sleeping m.queue i) (move k e i m place p).1 ≡ true))
        ⊎ ((place ≡ rousing) × ((move k e i m place p).0.queue ≡ k.wake wake_one m.queue))
  unfolding move
  move-live e i m place p b c l = ground arith

  module _ {n : ℕ} {s : Threads Queue} (inv : Fields k n s) (wakes : Wakeups s) (e : Event) (i : ℕ)
      (lt : i < n) where
    open inv use {binary, claims, lends}
    open wakes use {asleep, live}

    abbrev mem' : Mutex Queue
    mem' = (move k e i s.mem (s.place i) (s.pc i)).0

    abbrev place' : ℕ → Place
    place' = put s.place i (move k e i s.mem (s.place i) (s.pc i)).1

    move-blocked : (j : ℕ) → sleeping mem'.queue j ≡ true → place' j ≡ blocked
    move-blocked j h = ground (
      arith,
      asleep j,
      move-asleep e i s.mem (s.place i) (s.pc i) j,
      move-asleep_self e i s.mem (s.place i) (s.pc i) (asleep i),
    )

    move-Live : (j : ℕ) → sleeping mem'.queue j ≡ true → Live mem' place'
    move-Live j h = elim (move-live e i s.mem (s.place i) (s.pc i) binary (claims i) (lends i)) [
      | inl held ↦ inl held
      | inr (inl awake) ↦ inr (i, ground arith)
      | inr (inr (inl (word, queue, awake))) ↦ elim (live j (rw queue at h)) [
        | inl held ↦ inl (ground arith)
        | inr (u, up) ↦ inr (u, ground arith)
      ]
      | inr (inr (inr woke)) ↦
          let old = k.wake_old wake_one j s.mem.queue (rw woke.1 at h) in
          let (u, before, after) = k.wake_some wake_one j s.mem.queue (omega arith) old in
          inr (u, ground (arith, asleep u before))
    ]

    move-Wakeups : (pc' : ℕ → Pc) → Wakeups (record { mem = mem'; place = place'; pc = pc' })
    move-Wakeups pc' = record { asleep = move-blocked; live = move-Live }

  pub turn-Wakeups :
      (n : ℕ) (s : Threads Queue) (x : ℕ × Event)
      → Fields k n s
      → Wakeups s
      → Wakeups (turn k n x s)
  unfolding turn
  turn-Wakeups n s (i, e) inv wakes = elim (Bool-cases (ltb i n)) [
    | inl lt ↦ rw lt (move-Wakeups inv wakes e i (ltb→lt i n lt) _)
    | inr ge ↦ rw ge wakes
  ]

  start-Wakeups : Wakeups (start k)
  start-Wakeups = record {
    asleep = λ i h. cc (k.sleeping-nobody i);
    live = λ i h. cc (k.sleeping-nobody i);
  }

  run-Wakeups :
      (n : ℕ) (s : Threads Queue) (xs : List (ℕ × Event))
      → Fields k n s
      → Wakeups s
      → Wakeups (run k n xs s)
  unfolding run
  run-Wakeups n s [] inv wakes = wakes
  run-Wakeups n s (x ∷ xs) inv wakes =
      run-Wakeups n (turn k n x s) xs (turn-Fields k n s x inv) (turn-Wakeups n s x inv wakes)

  pub reached-Wakeups : (n : ℕ) (xs : List (ℕ × Event)) → Wakeups (run k n xs (start k))
  reached-Wakeups n xs = run-Wakeups n (start k) xs (start-Fields k n) start-Wakeups
