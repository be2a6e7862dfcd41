-- ===== src/Inherit/Kept.antt =====
-- tb-mutexes.c, lines 226-275: every schedule keeps what the fields of a priority-inherit mutex say.
use threading_from_scratch.Prelude.{
  ℕ,
  suc,
  ◌+◌,
  ◌≤◌,
  ◌<◌,
  ◌≡◌,
  ◌≢◌,
  refl,
  ◌⊎◌,
  inl,
  inr,
  true,
  ltb,
  ltb→lt,
  Bool-cases,
  List,
  [],
  ◌∷◌,
  arith,
  Threads.{put, bit, tally, tally-put, tally_pos, tally_two, tally-none},
}
use native.Mathlib.Decide.{dec_lt}
use threading_from_scratch.Kernel.{Kernel}
use threading_from_scratch.Futex
use threading_from_scratch.Futex.{
  Lock, Pc, idle, locking, waiting, in_kernel, holding, waking, Event, lock, try_lock, unlock, go,
  interrupt,
}
use threading_from_scratch.Futex.Invariant
use threading_from_scratch.Inherit.{Mutex, Place, move}
use threading_from_scratch.Inherit.Threads.{Threads, start, turn, run}
use threading_from_scratch.Inherit.Inner.{turn-Inner, alone}
use threading_from_scratch.Inherit.Invariant.{
  agree, is_owner, is_named, is_claiming, is_lending, Fields,
}

module _ (k : Kernel) where
  open k use {Queue, sleeping}

  -- What a thread does to the word and to its own place.
  move-own :
      (e : Event) (i : ℕ) (m : Mutex Queue) (place : Place) (p : Pc)
      → agree place p ≡ true
      → m.futex ≤ 1
      → bit (is_owner place) ≤ m.futex
      → (is_claiming place ≡ true → m.futex ≡ 0)
      → (is_lending place ≡ true → m.futex ≡ 1)
      → ((move k e i m place p).0.futex ≤ 1)
        × ((move k e i m place p).0.futex + bit (is_owner place)
            ≡ m.futex + bit (is_owner (move k e i m place p).1))
        × (is_claiming (move k e i m place p).1 ≡ true → (move k e i m place p).0.futex ≡ 0)
        × (is_lending (move k e i m place p).1 ≡ true → (move k e i m place p).0.futex ≡ 1)
  unfolding move
  move-own e i m place p f b o c l = ground arith

  move-agree :
      (e : Event) (i : ℕ) (m : Mutex Queue) (place : Place) (p : Pc)
      → agree place p ≡ true
      → agree (move k e i m place p).1 (move k e i m place p).2 ≡ true
  unfolding move Futex.step
  move-agree e i m place p f = ground arith

  move-named :
      (e : Event) (i : ℕ) (m : Mutex Queue) (place : Place) (p : Pc)
      → (is_named place ≡ true → m.owner ≡ suc i)
      → is_named (move k e i m place p).1 ≡ true
      → (move k e i m place p).0.owner ≡ suc i
  unfolding move
  move-named e i m place p f h = ground arith

  -- Outside the section the fields stay.
  move-section :
      (e : Event) (i : ℕ) (m : Mutex Queue) (place : Place) (p : Pc)
      → agree place p ≡ true
      → p ≢ holding
      → ((move k e i m place p).0.futex ≡ m.futex) × ((move k e i m place p).0.owner ≡ m.owner)
  unfolding move
  move-section e i m place p f out = ground arith

  move-owner :
      (e : Event) (i : ℕ) (m : Mutex Queue) (place : Place) (p : Pc)
      → ((move k e i m place p).0.owner ≡ m.owner)
        ⊎ (is_claiming place ≡ true)
        ⊎ (is_owner place ≡ true)
  unfolding move
  move-owner e i m place p = ground arith

  pub agree-holding :
      (place : Place) (p : Pc)
      → agree place p ≡ true
      → (is_claiming place ≡ true) ⊎ (is_lending place ≡ true)
      → p ≡ holding
  agree-holding place p f h = ground arith

  named_owner :
      (place : Place) → is_named place ≡ true → (is_owner place ≡ true) ⊎ (is_claiming place ≡ true)
  named_owner place h = ground arith

  module _ {n : ℕ} {s : Threads Queue} (inv : Fields k n s) (e : Event) (i : ℕ) (lt : i < n) where
    open inv use {locks, fit, binary, held, quiet, claims, lends, named}

    abbrev mem' : Mutex Queue
    mem' = (move k e i s.mem (s.place i) (s.pc i)).0

    abbrev place' : ℕ → Place
    place' = put s.place i (move k e i s.mem (s.place i) (s.pc i)).1

    abbrev pc' : ℕ → Pc
    pc' = put s.pc i (move k e i s.mem (s.place i) (s.pc i)).2

    mine : bit (is_owner (s.place i)) ≤ s.mem.futex
    mine = ground (arith, tally_pos is_owner s.place n i)

    counted : (mem'.futex ≤ 1) × (tally is_owner place' n ≡ mem'.futex)
    counted = omega (
      arith,
      move-own e i s.mem (s.place i) (s.pc i) (fit i) binary mine (claims i) (lends i),
      tally-put is_owner s.place n i (move k e i s.mem (s.place i) (s.pc i)).1 lt,
    )

    -- While another thread is in the section, the mover is not.
    stays :
        (j : ℕ)
        → i ≢ j
        → (is_claiming (s.place j) ≡ true) ⊎ (is_lending (s.place j) ≡ true)
        → (mem'.futex ≡ s.mem.futex) × (mem'.owner ≡ s.mem.owner)
    stays j d h =
        move-section e i s.mem (s.place i) (s.pc i) (fit i)
          λ p. d (alone k n s locks i j p (agree-holding (s.place j) (s.pc j) (fit j) h))

    below : (j : ℕ) → is_owner (s.place j) ≡ true → j < n
    below j h = elim (dec_lt j n) [ yes l ↦ l | no ge ↦ ground (arith, quiet j) ]

    -- While another thread is `mutex->owner`, the mover does not write it.
    keeps_owner : (j : ℕ) → i ≢ j → is_named (s.place j) ≡ true → mem'.owner ≡ s.mem.owner
    keeps_owner j d h = elim (named_owner (s.place j) h) [
      | inr c ↦ (stays j d (inl c)).1
      | inl o ↦ ground (
        arith,
        move-owner e i s.mem (s.place i) (s.pc i),
        claims i,
        tally_pos is_owner s.place n j (below j o) o,
        tally_two is_owner s.place n i j lt (below j o) d,
      )
    ]

    move-Fields :
        Futex.Invariant.Inv k n (record { mem = mem'.internal_futex; pc = pc' })
        → Fields k n (record { mem = mem'; place = place'; pc = pc' })
    move-Fields inner' =
        let own =
          move-own e i s.mem (s.place i) (s.pc i) (fit i) binary mine (claims i) (lends i) in
        record {
          locks = inner';
          fit = λ j. ground (arith, fit j, move-agree e i s.mem (s.place i) (s.pc i) (fit i));
          binary = counted.0;
          held = counted.1;
          quiet = λ j ge. ground (arith, quiet j);
          claims = λ j h. ground (arith, own, claims j, stays j);
          lends = λ j h. ground (arith, own, lends j, stays j);
          named = λ j h.
              ground (
                arith,
                named j,
                keeps_owner j,
                move-named e i s.mem (s.place i) (s.pc i) (named i),
              );
        }

  pub turn-Fields :
      (n : ℕ) (s : Threads Queue) (x : ℕ × Event) → Fields k n s → Fields k n (turn k n x s)
  unfolding turn
  turn-Fields n s (i, e) inv =
      let inner' = turn-Inner k n (i, e) s inv.locks in
      elim (Bool-cases (ltb i n)) [
        | inl lt ↦ rw lt (move-Fields inv e i (ltb→lt i n lt) (rw lt at inner'))
        | inr ge ↦ rw ge inv
      ]

  pub start-Fields : (n : ℕ) → Fields k n (start k)
  start-Fields n = record {
    locks = Futex.Invariant.start-Inv k n;
    fit = λ i. refl;
    binary = omega arith;
    held = tally-none is_owner _ n (λ i. refl);
    quiet = λ i ge. refl;
    claims = λ i h. cc;
    lends = λ i h. cc;
    named = λ i h. cc;
  }

  pub run-Fields :
      (n : ℕ) (s : Threads Queue) (xs : List (ℕ × Event)) → Fields k n s → Fields k n (run k n xs s)
  unfolding run
  run-Fields n s [] inv = inv
  run-Fields n s (x ∷ xs) inv = run-Fields n (turn k n x s) xs (turn-Fields n s x inv)

  pub reached-Fields : (n : ℕ) (xs : List (ℕ × Event)) → Fields k n (run k n xs (start k))
  reached-Fields n xs = run-Fields n (start k) xs (start-Fields n)
