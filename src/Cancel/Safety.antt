-- ===== src/Cancel/Safety.antt =====
-- tb-cancel.c: a thread is signalled and goes to tbthread_exit once at most.
use threading_from_scratch.Prelude.{
  ℕ,
  ◌+◌,
  ◌-◌,
  ◌≤◌,
  ◌≡◌,
  refl,
  inl,
  inr,
  Bool,
  true,
  false,
  not,
  ◌&&◌,
  ltb,
  Bool-cases,
  ltb→lt,
  List,
  [],
  ◌∷◌,
  arith,
  Threads.{bit, tally, tally-put, tally-none, tally_pos},
}
use threading_from_scratch.Cancel.{
  Target, Pc, canceling_swap, killing, testing_swap, exiting, Event, step,
}
use threading_from_scratch.Cancel.Threads.{System, start, turn, run}

abbrev pub is_killing : Pc → Bool
is_killing killing = true
is_killing _ = false

abbrev pub is_exiting : Pc → Bool
is_exiting exiting = true
is_exiting _ = false

-- What a caller has read before its compare-and-swap.
abbrev has_read : Pc → Bool
has_read (canceling_swap val) = not val.canceling
has_read (testing_swap val) = val.canceling && not val.canceled
has_read p = true

abbrev Sound : Target → Type 0
Sound m = (m.exits ≡ bit m.status.canceled) × (bit m.status.canceled ≤ bit m.status.canceling)

step-Sound : (e : Event) (m : Target) (p : Pc) → Sound m → has_read p ≡ true → Sound (step e m p).0
unfolding step
step-Sound e m p s h = ground arith

step-has_read :
    (e : Event) (m : Target) (p : Pc) → has_read p ≡ true → has_read (step e m p).1 ≡ true
unfolding step
step-has_read e m p h = ground arith

step-signals :
    (e : Event) (m : Target) (p : Pc) (others : ℕ)
    → m.signals + (others + bit (is_killing p)) ≤ bit m.status.canceling
    → has_read p ≡ true
    → (step e m p).0.signals + (others + bit (is_killing (step e m p).1))
      ≤ bit (step e m p).0.status.canceling
unfolding step
step-signals e m p others b h = ground arith

step-exiting :
    (e : Event) (m : Target) (p : Pc)
    → (step e m p).0.exits + bit (is_exiting p) ≡ m.exits + bit (is_exiting (step e m p).1)
unfolding step
step-exiting e m p = ground arith

module _ (n : ℕ) where
  record Inv (s : System) : Type 0 where
    sound : Sound s.mem
    read : (i : ℕ) → has_read (s.pc i) ≡ true
    signalled : s.mem.signals + tally is_killing s.pc n ≤ bit s.mem.status.canceling
    exited : s.mem.exits ≡ tally is_exiting s.pc n

  start-Inv : Inv start
  start-Inv = record {
    sound = (refl, omega arith);
    read = λ i. refl;
    signalled = omega (arith, tally-none is_killing start.pc n (λ i. refl));
    exited = omega (arith, tally-none is_exiting start.pc n (λ i. refl));
  }

  turn-Inv : (x : ℕ × Event) (s : System) → Inv s → Inv (turn n x s)
  unfolding turn
  turn-Inv (i, e) s inv = elim (Bool-cases (ltb i n)) [
    | inr outside ↦ rw outside inv
    | inl inside ↦
        let lt = ltb→lt i n inside in
        let p' = (step e s.mem (s.pc i)).1 in
        let counted : bit (is_killing (s.pc i)) ≤ tally is_killing s.pc n =
          ground (arith, tally_pos is_killing s.pc n i lt) in
        let others = tally is_killing s.pc n - bit (is_killing (s.pc i)) in
        rw inside (record {
          sound = step-Sound e s.mem (s.pc i) inv.sound (inv.read i);
          read = λ j. ground (arith, inv.read j, step-has_read e s.mem (s.pc i) (inv.read i));
          signalled = omega (
            arith,
            tally-put is_killing s.pc n i p' lt,
            counted,
            step-signals e s.mem (s.pc i) others (omega (arith, counted, inv.signalled))
                (inv.read i),
          );
          exited = omega (
            arith,
            inv.exited,
            step-exiting e s.mem (s.pc i),
            tally-put is_exiting s.pc n i p' lt,
          );
        })
  ]

  run-Inv : (xs : List (ℕ × Event)) (s : System) → Inv s → Inv (run n xs s)
  unfolding run
  run-Inv [] s inv = inv
  run-Inv (x ∷ xs) s inv = run-Inv xs (turn n x s) (turn-Inv x s inv)

-- After any schedule of any number of callers of tbthread_cancel, tbthread_testcancel, the setters
-- and the signal handler over one thread, it has gone to tbthread_exit as often as TB_CANCELED is set,
-- so once at most, and only after TB_CANCELING; and at most one signal has been sent or is due to
-- be, and none before TB_CANCELING.
pub canceled_once :
    (n : ℕ) (xs : List (ℕ × Event))
    → let s = run n xs start in
      (s.mem.exits ≡ bit s.mem.status.canceled)
      × (bit s.mem.status.canceled ≤ bit s.mem.status.canceling)
      × (tally is_exiting s.pc n ≡ s.mem.exits)
      × (s.mem.signals + tally is_killing s.pc n ≤ bit s.mem.status.canceling)
canceled_once n xs =
    let inv = run-Inv n xs start (start-Inv n) in
    (inv.sound.0, inv.sound.1, omega (arith, inv.exited), inv.signalled)
