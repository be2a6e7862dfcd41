-- ===== src/Start/Calm.antt =====
-- tb-threads.c, lines 94-115 and 292-327: a new thread whose scheduling tbthread_create sets runs the
-- user's function if that succeeds, and only then, unless its FUTEX_WAIT ends early.
use threading_from_scratch.Prelude.{
  ℕ,
  ◌≤◌,
  ◌≡◌,
  ◌≢◌,
  refl,
  inl,
  inr,
  Bool,
  true,
  false,
  if◌then◌else◌,
  List,
  [],
  ◌∷◌,
  replicate,
  Bool-cases,
  arith,
  Outcome.{Outcome},
}
use threading_from_scratch.Kernel.{Kernel, wake_one}
use threading_from_scratch.Descriptors.Create.{start_ok, start_wait, start_exit}
use threading_from_scratch.Start.{
  Creator, storing, setting, telling, waking, Child, in_kernel, looking_again, running, leaving,
  clearing, gone, Event, creator_goes, creator_interrupted, child_goes, child_interrupted, Start,
  creator_number, child_number, is_ok, step, start, run,
}
use threading_from_scratch.Start.Meeting.{has_ended, Met, step-Met, start-Met}

-- Lines 312-313 have been run,
abbrev has_told : Creator → Bool
has_told storing = false
has_told setting = false
has_told telling = false
has_told c = true

-- and line 314 too.
abbrev has_woken : Creator → Bool
has_woken waking = false
has_woken c = has_told c

-- The thread is behind its FUTEX_WAIT.
abbrev is_past : Child → Bool
is_past looking_again = true
is_past running = true
is_past leaving = true
is_past clearing = true
is_past gone = true
is_past c = false

abbrev is_in_kernel : Child → Bool
is_in_kernel in_kernel = true
is_in_kernel c = false

-- Whether the user's function is called before the thread stands there.
abbrev has_called : (ok : Bool) → Child → Bool
has_called ok running = true
has_called ok leaving = ok
has_called ok clearing = ok
has_called ok gone = ok
has_called ok c = false

abbrev is_running : Child → Bool
is_running running = true
is_running c = false

abbrev pub is_gone : Child → Bool
is_gone gone = true
is_gone c = false

-- No FUTEX_WAIT of the new thread ends without a wake.
abbrev pub Calm : List Event → Type 0
Calm [] = Unit
Calm (child_interrupted ∷ es) = ⊥
Calm (e ∷ es) = Calm es

Calm-cases : (e : Event) (es : List Event) → Calm (e ∷ es) → Calm (e ∷ []) × Calm es
Calm-cases creator_goes es c = (tt, c)
Calm-cases creator_interrupted es c = (tt, c)
Calm-cases child_goes es c = (tt, c)
Calm-cases child_interrupted es c = absurd c

module _ (k : Kernel) (ret : Outcome) (t : ℕ) (set : t ≢ 0) where
  open k use {Queue, sleeping}

  record Told (s : Start Queue) : Type 0 where
    status :
        s.mem.start_status
        ≡ (if has_told s.creator then (if is_ok ret then start_ok else start_exit) else start_wait)
    past : is_past s.child ≡ true → has_told s.creator ≡ true
    woken :
        is_in_kernel s.child ≡ true
        → sleeping s.mem.status_queue child_number ≡ false
        → has_told s.creator ≡ true
    dozes :
        (u : ℕ)
        → sleeping s.mem.status_queue u ≡ true
        → (u ≡ child_number) × (is_in_kernel s.child ≡ true) × (has_woken s.creator ≡ false)
    permitted : is_running s.child ≡ true → is_ok ret ≡ true
    calls : s.mem.calls ≡ (if has_called (is_ok ret) s.child then 1 else 0)
    cleared : has_ended s.child ≡ true → s.mem.tid ≡ 0
    lasts :
        (u : ℕ)
        → sleeping s.mem.tid_queue u ≡ true
        → (u ≡ creator_number) × (is_gone s.child ≡ false)

  -- The wake of line 314 reaches the new thread, and that of its end tbthread_create: a wake for one
  -- thread wakes the only sleeper.
  wakes :
      (s : Start Queue) → Told s → (u : ℕ) → sleeping (k.wake wake_one s.mem.status_queue) u ≡ false
  wakes s v u = elim (Bool-cases (sleeping (k.wake wake_one s.mem.status_queue) u)) [
    | inr up ↦ up
    | inl down ↦
        let old = k.wake_old wake_one u s.mem.status_queue down in
        let (w, before, after) = k.wake_some wake_one u s.mem.status_queue (omega arith) old in
        ground (arith, v.dozes u old, v.dozes w before)
  ]

  wakes_creator :
      (s : Start Queue) → Told s → (u : ℕ) → sleeping (k.wake wake_one s.mem.tid_queue) u ≡ false
  wakes_creator s v u = elim (Bool-cases (sleeping (k.wake wake_one s.mem.tid_queue) u)) [
    | inr up ↦ up
    | inl down ↦
        let old = k.wake_old wake_one u s.mem.tid_queue down in
        let (w, before, after) = k.wake_some wake_one u s.mem.tid_queue (omega arith) old in
        ground (arith, v.lasts u old, v.lasts w before)
  ]

  step-Told :
      (e : Event) (s : Start Queue)
      → Calm (e ∷ [])
      → Met k false ret t set s
      → Told s
      → Told (step k false ret t e s)
  unfolding step
  step-Told creator_goes s c m v = record {
    status = ground (arith, v.status);
    past = ground (arith, v.past);
    woken = λ at up. ground (arith, v.woken at);
    dozes = λ u h. ground (arith, v.dozes u, wakes s v u);
    permitted = v.permitted;
    calls = ground (arith, v.calls);
    cleared = ground (arith, v.cleared, v.past);
    lasts = λ u h.
        ground
          (arith, k.sleeping-sleep creator_number u s.mem.tid_queue, v.lasts u, m.saw, v.cleared);
  }
  step-Told creator_interrupted s c m v = record {
    status = ground (arith, v.status);
    past = ground (arith, v.past);
    woken = ground (arith, v.woken);
    dozes = λ u h. ground (arith, v.dozes u);
    permitted = v.permitted;
    calls = ground (arith, v.calls);
    cleared = ground (arith, v.cleared);
    lasts = λ u h. ground (arith, k.sleeping-leave creator_number u s.mem.tid_queue, v.lasts u);
  }
  step-Told child_goes s c m v =
      let sleeps = k.sleeping-sleep child_number child_number s.mem.status_queue in
      record {
        status = ground (arith, v.status);
        past = ground (arith, v.past, v.woken, v.status);
        woken = ground (arith, sleeps, v.woken);
        dozes = λ u h.
            ground (arith, k.sleeping-sleep child_number u s.mem.status_queue, v.dozes u, v.status);
        permitted = ground (arith, v.status, v.past);
        calls = ground (arith, v.calls, v.status, v.past, v.permitted);
        cleared = ground (arith, v.cleared);
        lasts = λ u h. ground (arith, v.lasts u, wakes_creator s v u);
      }
  step-Told child_interrupted s c m v = absurd c

  run-Told :
      (es : List Event) (s : Start Queue)
      → Calm es
      → Met k false ret t set s
      → Told s
      → Met k false ret t set (run k false ret t es s) × Told (run k false ret t es s)
  unfolding run
  run-Told [] s c m v = (m, v)
  run-Told (e ∷ es) s c m v =
      let (now, later) = Calm-cases e es c in
      run-Told es (step k false ret t e s) later (step-Met k false ret t set e s m)
        (step-Told e s now m v)

  start-Told : Told (start k false ret t)
  start-Told = record {
    status = refl;
    past = λ e. cc;
    woken = λ e. cc;
    dozes = λ u e. cc (k.sleeping-nobody u);
    permitted = λ e. cc;
    calls = refl;
    cleared = λ e. cc;
    lasts = λ u e. cc (k.sleeping-nobody u);
  }

  abbrev pub Wakes : Start Queue → Type 0
  Wakes s =
      (r : ℕ) × (r ≤ 4)
      × (sleeping (run k false ret t (replicate r creator_goes) s).mem.status_queue child_number
          ≡ false)

  until_wake :
      (s : Start Queue) (c : Creator) → Told s → s.creator ≡ c → has_woken c ≡ false → Wakes s
  unfolding run step
  until_wake s waking v at h = (1, omega arith, ground (arith, wakes s v child_number))
  until_wake s telling v at h = (2, omega arith, ground (arith, wakes s v child_number))
  until_wake s setting v at h = (3, omega arith, ground (arith, wakes s v child_number))
  until_wake s storing v at h = (4, omega arith, ground (arith, wakes s v child_number))
  until_wake s c v at h = ground arith

  module _ (es : List Event) (calm : Calm es) where
    abbrev pub now : Start Queue
    now = run k false ret t es (start k false ret t)

    told : Told now
    told = (run-Told es (start k false ret t) calm (start-Met k false ret t set) start-Told).1

    -- A thread whose scheduling tbthread_create is asked to set, in any schedule in which the thread's
    -- own FUTEX_WAIT does not end without a wake: if tb_set_sched fails, the user's function is never
    -- called; if it succeeds, the function has not been called before line 313, and has been called
    -- exactly once when the thread ends; and it is never called twice.
    pub runs_if_set :
        (is_ok ret ≡ false → now.mem.calls ≡ 0)
        × (now.mem.calls ≡ 1 → now.mem.start_status ≡ start_ok)
        × (is_ok ret ≡ true → has_ended now.child ≡ true → now.mem.calls ≡ 1)
        × (now.mem.calls ≤ 1)
    runs_if_set = (
      ground (arith, told.calls, told.permitted),
      ground (arith, told.calls, told.permitted, told.past, told.status),
      ground (arith, told.calls),
      ground (arith, told.calls),
    )

    -- In such a schedule, a new thread that sleeps in its FUTEX_WAIT is woken by at most four further
    -- steps of tbthread_create, and a tbthread_create that sleeps in wait_for_thread is not asleep when
    -- the thread is gone.
    pub start_is_heard :
        (sleeping now.mem.status_queue child_number ≡ true → Wakes now)
        × (is_gone now.child ≡ true → sleeping now.mem.tid_queue creator_number ≡ false)
    start_is_heard = (
      λ h. until_wake now now.creator told refl (told.dozes child_number h).2,
      λ g. ground (arith, told.lasts creator_number),
    )
