-- ===== src/Monitor/Refined.antt =====
-- tb-condvar.c, lines 29-113: what consumers and producers do with their condition variable is a
-- schedule of Condvar, so what holds there holds of them.
use threading_from_scratch.Prelude.{
  ℕ,
  suc,
  ◌≡◌,
  refl,
  inl,
  inr,
  Bool,
  true,
  false,
  ltb,
  Bool-cases,
  List,
  [],
  ◌∷◌,
  length,
  arith,
  Outcome.{err, einval},
}
use threading_from_scratch.Kernel.{Kernel}
use threading_from_scratch.Sched.{Scheduler}
use threading_from_scratch.Mutex.{Result, returns}
use threading_from_scratch.Mutex.Promise.{lock, unlock, call}
use threading_from_scratch.Condvar
use threading_from_scratch.Condvar.{Cond, Pc, idle, relocking, returned, take_mutex}
use threading_from_scratch.Monitor.{
  Shared, accepts, Place, in_wait, entering, announcing, Event, go, interrupt, give_up, step,
}
use threading_from_scratch.Monitor.Threads.{Programs, waits_of, turn, run}

-- An event that does not fit the place, so that it changes nothing.
abbrev pub keep : Pc → Condvar.Event
keep idle = Condvar.go
keep (returned st) = Condvar.go
keep p = Condvar.signal

-- What a thread does with the condition variable, by what its calls on the mutex return.
abbrev pub entry : Bool → ℕ → Result → Pc → Condvar.Event
entry false a r p = Condvar.wait a (err einval)
entry true a (returns r s) p = Condvar.wait a r
entry true a r p = keep p

abbrev pub wait_go : Result → Pc → Condvar.Event
wait_go (returns r s) p = Condvar.go
wait_go r (relocking x st) = Condvar.signal
wait_go r p = Condvar.go

module _ (k : Kernel) (sys : Scheduler) (memory : Bool) (a : ℕ) where
  open k use {Queue}

  abbrev pub cond_event : Event → ℕ → Shared Queue → Place → Pc → Condvar.Event
  cond_event go i m entering p =
      entry (accepts (suc a) m.cond) a (call unlock sys memory a (suc i) m.state) p
  cond_event go i m in_wait p = wait_go (call lock sys memory a (suc i) m.state) p
  cond_event go i m announcing p = Condvar.broadcast
  cond_event interrupt i m in_wait p = Condvar.interrupt
  cond_event (give_up st) i m in_wait p = Condvar.give_up st
  cond_event e i m place p = keep p

  step-cond :
      (e : Event) (i : ℕ) (m : Shared Queue) (place : Place) (p : Pc)
      → ((step k sys memory a e i m place p).0.cond
          ≡ (Condvar.step k (cond_event e i m place p) i m.cond p).0)
        × ((step k sys memory a e i m place p).2
            ≡ (Condvar.step k (cond_event e i m place p) i m.cond p).1)
  unfolding step Condvar.step accepts
  step-cond e i m place p = ground arith

  module _ (n : ℕ) where
    abbrev pub cond_turn : ℕ × Event → Programs Queue → ℕ × Condvar.Event
    cond_turn (i, e) s = (i, cond_event e i s.mem (s.place i) (s.pc i))

    pub turn-waits_of :
        (x : ℕ × Event) (s : Programs Queue)
        → waits_of (turn k sys memory a n x s)
          ≡ Condvar.Threads.turn k n (cond_turn x s) (waits_of s)
    unfolding turn Condvar.Threads.turn
    turn-waits_of (i, e) s =
        let (cond, pc) = step-cond e i s.mem (s.place i) (s.pc i) in
        elim (Bool-cases (ltb i n)) [ inl lt ↦ rw (lt, cond, pc) | inr ge ↦ rw ge ]

    -- The schedule of the condition variable that goes with one of the programs.
    pub cond_schedule : List (ℕ × Event) → Programs Queue → List (ℕ × Condvar.Event)
    cond_schedule [] s = []
    cond_schedule (x ∷ xs) s = cond_turn x s ∷ cond_schedule xs (turn k sys memory a n x s)

    pub run-waits_of :
        (xs : List (ℕ × Event)) (s : Programs Queue)
        → waits_of (run k sys memory a n xs s)
          ≡ Condvar.Threads.run k n (cond_schedule xs s) (waits_of s)
    unfolding run Condvar.Threads.run cond_schedule
    run-waits_of [] s = refl
    run-waits_of (x ∷ xs) s = rw (run-waits_of xs (turn k sys memory a n x s), turn-waits_of x s)

    pub length-cond_schedule :
        (xs : List (ℕ × Event)) (s : Programs Queue) → length (cond_schedule xs s) ≡ length xs
    unfolding cond_schedule
    length-cond_schedule [] s = refl
    length-cond_schedule (x ∷ xs) s =
        omega (arith, length-cond_schedule xs (turn k sys memory a n x s))
