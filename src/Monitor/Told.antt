-- ===== src/Monitor/Told.antt =====
-- tb-condvar.c, lines 29-113, with tb-mutexes.c: what a thread that waits for the flag may rely on.
use threading_from_scratch.Prelude.{
  ℕ,
  suc,
  ◌+◌,
  ◌%◌,
  ◌^◌,
  ◌≤◌,
  ◌<◌,
  ◌≡◌,
  ◌≢◌,
  ◌⊎◌,
  ◌↔◌,
  inl,
  inr,
  Bool,
  true,
  false,
  Bool-cases,
  subst,
  arith,
  Threads.{put, tally_pos},
}
use native.Mathlib.Decide.{dec_lt, ℕ_discrete}
use threading_from_scratch.Kernel.{Kernel, max_threads}
use threading_from_scratch.Sched.{Scheduler}
use threading_from_scratch.Condvar
use threading_from_scratch.Condvar.{Cond, Locals, Pc, waiting, in_kernel, woken, to_int}
use threading_from_scratch.Condvar.Counts.{is_waiting, locals}
use threading_from_scratch.Condvar.Wakeups.{Ready}
use threading_from_scratch.Monitor.{Shared, Place, entering, announcing, setting, Event, step}
use threading_from_scratch.Monitor.Threads.{Programs, waits_of}
use threading_from_scratch.Monitor.Mutexes.{IsPlain}
use threading_from_scratch.Monitor.Flags.{has_mutex, agree, owner_of, Moves, step-agree, step-Moved}

abbrev is_entering : Place → Bool
is_entering entering = true
is_entering _ = false

abbrev pub is_announcing : Place → Bool
is_announcing announcing = true
is_announcing _ = false

abbrev is_setting : Place → Bool
is_setting setting = true
is_setting _ = false

module _ (k : Kernel) (sys : Scheduler) (memory : Bool) (a : ℕ) where
  open k use {Queue}

  -- The flag is set by a thread that has the mutex, which then announces it.
  step-ready :
      (e : Event) (i : ℕ) (m : Shared Queue) (place : Place) (p : Pc)
      → ((step k sys memory a e i m place p).0.ready ≡ m.ready)
        ⊎ ((is_setting place ≡ true) × (is_announcing (step k sys memory a e i m place p).1 ≡ true))
  unfolding step
  step-ready e i m place p = ground arith

  step-entering :
      (e : Event) (i : ℕ) (m : Shared Queue) (place : Place) (p : Pc)
      → is_entering (step k sys memory a e i m place p).1 ≡ true
      → (is_entering place ≡ true) ⊎ (m.ready ≡ false)
  unfolding step
  step-entering e i m place p h = ground arith

  -- The sequence number moves when a thread announces, if one waits.
  step-seq :
      (e : Event) (i : ℕ) (m : Shared Queue) (place : Place) (p : Pc)
      → agree place p ≡ true
      → (((step k sys memory a e i m place p).0.cond.broadcast_seq ≡ m.cond.broadcast_seq)
          × (is_announcing place ≡ true
              → is_announcing (step k sys memory a e i m place p).1 ≡ false
              → m.cond.waiters ≡ 0))
        ⊎ ((is_announcing place ≡ true)
            × ((step k sys memory a e i m place p).0.cond.broadcast_seq
                ≡ (m.cond.broadcast_seq + 1) % 2 ^ 64))
  unfolding step Condvar.step
  step-seq e i m place p f = ground arith

  -- A thread begins to wait after it has read that the flag is not set.
  step-waits :
      (e : Event) (i : ℕ) (m : Shared Queue) (place : Place) (p : Pc)
      → agree place p ≡ true
      → is_waiting (step k sys memory a e i m place p).2 ≡ true
      → (is_entering place ≡ true)
        ⊎ ((is_waiting p ≡ true)
            × (is_announcing place ≡ false)
            × ((locals (step k sys memory a e i m place p).2).bseq ≡ (locals p).bseq))
  unfolding step Condvar.step
  step-waits e i m place p f h = ground arith

  pub record Told (s : Programs Queue) : Type 0 where
    pub plain : IsPlain (s.mem.state.mutexes a)
    pub owner : (i : ℕ) → (owner_of k sys memory a s.mem ≡ suc i) ↔ (has_mutex (s.place i) ≡ true)
    pub fit : (i : ℕ) → agree (s.place i) (s.pc i) ≡ true
    pub unset : (i : ℕ) → is_entering (s.place i) ≡ true → s.mem.ready ≡ false
    pub news :
        (i : ℕ)
        → is_waiting (s.pc i) ≡ true
        → s.mem.ready ≡ true
        → ((locals (s.pc i)).bseq ≢ s.mem.cond.broadcast_seq)
          ⊎ ((j : ℕ) × (is_announcing (s.place j) ≡ true))

  module _ {n t : ℕ} {s : Programs Queue} (few : n ≤ max_threads) (short : t < 2 ^ 31)
      (inv : Condvar.Counts.Inv k n (waits_of s)) (re : Ready k n t (waits_of s)) (told : Told s)
      (e : Event) (i : ℕ) (lt : i < n) where
    open told use {plain, owner, fit, unset, news}

    abbrev mem' : Shared Queue
    mem' = (step k sys memory a e i s.mem (s.place i) (s.pc i)).0

    abbrev place' : ℕ → Place
    place' = put s.place i (step k sys memory a e i s.mem (s.place i) (s.pc i)).1

    abbrev pc' : ℕ → Pc
    pc' = put s.pc i (step k sys memory a e i s.mem (s.place i) (s.pc i)).2

    mutex_moved :
        IsPlain (mem'.state.mutexes a)
        × Moves k sys memory a i s.mem
            (s.place i)
            mem'
            (step k sys memory a e i s.mem (s.place i) (s.pc i)).1
    mutex_moved = step-Moved k sys memory a e i s.mem (s.place i) (s.pc i) plain (owner i) (fit i)

    step-owner : (j : ℕ) → (owner_of k sys memory a mem' ≡ suc j) ↔ (has_mutex (place' j) ≡ true)
    step-owner j = ground (arith, mutex_moved.1, owner j, owner i)

    step-unset : (j : ℕ) → is_entering (place' j) ≡ true → mem'.ready ≡ false
    step-unset j h = ground (
      arith,
      step-ready e i s.mem (s.place i) (s.pc i),
      step-entering e i s.mem (s.place i) (s.pc i),
      unset j,
      unset i,
      owner i,
      owner j,
    )

    abbrev News : ℕ → Type 0
    News j =
        ((locals (pc' j)).bseq ≢ mem'.cond.broadcast_seq)
        ⊎ ((u : ℕ) × (is_announcing (place' u) ≡ true))

    small : s.mem.cond.broadcast_seq < 2 ^ 31
    small = omega (arith, re.order, re.counted_by)

    -- An announcement is news to every thread that waits.
    announced :
        (j : ℕ) → i ≢ j → is_waiting (s.pc j) ≡ true → is_announcing (s.place i) ≡ true → News j
    announced j d w now =
        let below : j < n = elim (dec_lt j n) [ yes l ↦ l | no ge ↦ ground (arith, inv.quiet j) ] in
        elim (Bool-cases (is_announcing (place' i))) [
          | inl still ↦ inr (i, still)
          | inr past ↦ inl (λ same. ground (
            arith,
            step-seq e i s.mem (s.place i) (s.pc i) (fit i),
            inv.counted,
            tally_pos is_waiting s.pc n j below w,
            re.past j w,
            small,
          ))
        ]

    step-News_other : (j : ℕ) → i ≢ j → is_waiting (s.pc j) ≡ true → mem'.ready ≡ true → News j
    step-News_other j d w set = elim (step-ready e i s.mem (s.place i) (s.pc i)) [
      | inr (writes, tells) ↦ inr (i, ground arith)
      | inl same ↦ elim (Bool-cases (is_announcing (s.place i))) [
        | inl now ↦ announced j d w now
        | inr calm ↦ elim (news j w (ground arith)) [
          | inl new ↦ inl (ground (arith, step-seq e i s.mem (s.place i) (s.pc i) (fit i)))
          | inr (u, tells) ↦ inr (u, ground arith)
        ]
      ]
    ]

    step-News_self : is_waiting (pc' i) ≡ true → mem'.ready ≡ true → News i
    step-News_self w set = elim (step-waits e i s.mem (s.place i) (s.pc i) (fit i) (ground arith)) [
      | inl enters ↦ ground (arith, step-ready e i s.mem (s.place i) (s.pc i), unset i enters)
      | inr (w0, calm, bseq) ↦
          let set0 : s.mem.ready ≡ true =
            ground (arith, step-ready e i s.mem (s.place i) (s.pc i), fit i) in
          elim (news i w0 set0) [
            | inl new ↦ inl (ground (arith, step-seq e i s.mem (s.place i) (s.pc i) (fit i)))
            | inr (u, tells) ↦ inr (u, ground arith)
          ]
    ]

    pub step-Told : Told (record { mem = mem'; place = place'; pc = pc' })
    step-Told = record {
      plain = mutex_moved.0;
      owner = step-owner;
      fit = λ j.
          ground (arith, fit j, step-agree k sys memory a e i s.mem (s.place i) (s.pc i) (fit i));
      unset = step-unset;
      news = λ j w set. elim (ℕ_discrete i j) [
        | yes same ↦
            subst (λ x. is_waiting (pc' x) ≡ true → News x) same (λ y. step-News_self y set) w
        | no d ↦ step-News_other j d (ground arith) set
      ];
    }
