-- ===== src/Inherit/Inner.antt =====
-- tb-mutexes.c, lines 226-275: what the priority-inherit mutex does with its internal futex is a
-- schedule of tb_futex_lock and tb_futex_unlock, so the sections between them exclude each other.
use threading_from_scratch.Prelude.{
  ℕ, ◌≡◌, refl, inl, inr, Bool, true, false, if◌then◌else◌, ◌==◌, ltb, Bool-cases, List, [], ◌∷◌,
  arith,
}
use threading_from_scratch.Kernel.{Kernel}
use threading_from_scratch.Futex
use threading_from_scratch.Futex.{
  Lock, Pc, idle, locking, waiting, in_kernel, holding, waking, Event, lock, try_lock, unlock, go,
  interrupt,
}
use threading_from_scratch.Futex.Invariant.{Inv, turn-Inv}
use threading_from_scratch.Futex.Threads
use threading_from_scratch.Futex.Safety.{exclusive}
use threading_from_scratch.Inherit.{
  Mutex, Place, outside, taking, leaving, blocked, owning, releasing, ending, move,
}
use threading_from_scratch.Inherit.Threads.{Threads, internal, start, turn, run}

-- An event that does not fit the place, so that it changes nothing.
abbrev keep : Pc → Event
keep idle = unlock
keep _ = try_lock

-- What a thread that goes on does with the internal futex. `again` says that FUTEX_WAIT returns.
abbrev inner_go : Bool → Place → Pc → Event
inner_go again (taking try) holding = try_lock
inner_go again (taking try) p = go
inner_go again (leaving try locked) holding = unlock
inner_go again (leaving false false) idle = if again then lock else unlock
inner_go again (leaving try locked) idle = unlock
inner_go again (leaving try locked) p = go
inner_go again blocked p = if again then lock else keep p
inner_go again releasing holding = try_lock
inner_go again releasing p = go
inner_go again ending holding = unlock
inner_go again ending idle = unlock
inner_go again ending p = go
inner_go again place p = keep p

abbrev inner_event : Event → Bool → Place → Pc → Event
inner_event lock again outside p = lock
inner_event try_lock again outside p = lock
inner_event unlock again owning p = lock
inner_event go again place p = inner_go again place p
inner_event interrupt again blocked p = lock
inner_event interrupt again place p = interrupt
inner_event e again place p = keep p

module _ (k : Kernel) where
  open k use {Queue, sleeping}

  abbrev returns : ℕ → Mutex Queue → Place → Bool
  returns i m blocked = if sleeping m.queue i then false else true
  returns i m place = if m.futex == 1 then false else true

  move-step :
      (e : Event) (i : ℕ) (m : Mutex Queue) (place : Place) (p : Pc)
      → ((move k e i m place p).0.internal_futex
          ≡ (Futex.step k (inner_event e (returns i m place) place p) i m.internal_futex p).0)
        × ((move k e i m place p).2
            ≡ (Futex.step k (inner_event e (returns i m place) place p) i m.internal_futex p).1)
  unfolding move Futex.step
  move-step e i m place p = ground arith

  module _ (n : ℕ) where
    abbrev inner_turn : ℕ × Event → Threads Queue → ℕ × Event
    inner_turn (i, e) s = (i, inner_event e (returns i s.mem (s.place i)) (s.place i) (s.pc i))

    turn-internal :
        (x : ℕ × Event) (s : Threads Queue)
        → internal (turn k n x s) ≡ Futex.Threads.turn k n (inner_turn x s) (internal s)
    unfolding turn Futex.Threads.turn
    turn-internal (i, e) s =
        let (mem, pc) = move-step e i s.mem (s.place i) (s.pc i) in
        elim (Bool-cases (ltb i n)) [ inl lt ↦ rw (lt, mem, pc) | inr ge ↦ rw ge ]

    -- The schedule of the internal futex that goes with one of the mutex.
    pub inner_schedule : List (ℕ × Event) → Threads Queue → List (ℕ × Event)
    inner_schedule [] s = []
    inner_schedule (x ∷ xs) s = inner_turn x s ∷ inner_schedule xs (turn k n x s)

    run-internal :
        (xs : List (ℕ × Event)) (s : Threads Queue)
        → internal (run k n xs s) ≡ Futex.Threads.run k n (inner_schedule xs s) (internal s)
    unfolding run Futex.Threads.run inner_schedule
    run-internal [] s = refl
    run-internal (x ∷ xs) s = rw (run-internal xs (turn k n x s), turn-internal x s)

    -- After any schedule, the internal futex of a priority-inherit mutex and the threads in
    -- tb_futex_lock and tb_futex_unlock are as some schedule of these two functions alone leaves them.
    pub inherit_refines_futex :
        (xs : List (ℕ × Event))
        → internal (run k n xs (start k))
          ≡ Futex.Threads.run k n (inner_schedule xs (start k)) (Futex.Threads.start k)
    inherit_refines_futex xs = run-internal xs (start k)

    pub turn-Inner :
        (x : ℕ × Event) (s : Threads Queue)
        → Inv k n (internal s)
        → Inv k n (internal (turn k n x s))
    turn-Inner x s inv = rw (turn-internal x s) (turn-Inv k n (internal s) (inner_turn x s) inv)

    -- In the section of the internal futex a thread is alone.
    pub alone :
        (s : Threads Queue)
        → Inv k n (internal s)
        → (i j : ℕ) → s.pc i ≡ holding
        → s.pc j ≡ holding
        → i ≡ j
    alone s inv i j hi hj = exclusive k inv i j (rw hi) (rw hj)
