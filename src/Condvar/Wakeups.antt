-- ===== src/Condvar/Wakeups.antt =====
-- tb-condvar.c, lines 29-113: who will look at the counters without being woken.
use threading_from_scratch.Prelude.{
  ℕ,
  suc,
  ◌+◌,
  ◌%◌,
  ◌^◌,
  ◌≤◌,
  ◌<◌,
  ◌≡◌,
  ◌≢◌,
  ◌⊎◌,
  inl,
  inr,
  Bool,
  true,
  false,
  not,
  ◌==◌,
  arith,
  Threads.{put, bit, count, count_le, count_but, tally_find, tally_pos, tally-count},
}
use native.Mathlib.Decide.{ℕ_discrete, dec_lt}
use threading_from_scratch.Kernel.{Kernel, wake_one, wake_every, max_threads}
use threading_from_scratch.Condvar.{Cond, Locals, Pc, waiting, in_kernel, woken, Event, step}
use threading_from_scratch.Condvar.Threads.{System}
use threading_from_scratch.Condvar.Counts.{is_waiting, locals, Inv, few_waiters}

abbrev pub at_kernel : Pc → Bool
at_kernel (in_kernel l) = true
at_kernel _ = false

-- A thread that waits and comes to line 87 without being woken.
abbrev pub is_sure : (futex : ℕ) → (asleep : Bool) → Pc → Bool
is_sure f asleep (waiting l) = not (f == l.futex)
is_sure f asleep (in_kernel l) = not asleep
is_sure f asleep (woken l st) = true
is_sure f asleep _ = false

-- What a thread has read is not newer than the variable, and each broadcast since has moved the futex.
abbrev pub IsPast : (futex seq : ℕ) → Locals → Type 0
IsPast f q l = (l.futex ≤ f) × (l.bseq ≤ q) × (q + l.futex ≤ f + l.bseq)

module _ (k : Kernel) where
  open k use {Queue, sleeping}

  pub step-seqs :
      (e : Event) (i : ℕ) (m : Cond Queue) (p : Pc)
      → m.futex < 2 ^ 31
      → m.broadcast_seq ≤ m.futex
      → let m' = (step k e i m p).0 in
        (m.futex ≤ m'.futex)
        × (m'.futex ≤ m.futex + 1)
        × (m.broadcast_seq ≤ m'.broadcast_seq)
        × (m'.broadcast_seq + m.futex ≤ m'.futex + m.broadcast_seq)
  unfolding step
  step-seqs e i m p b le = (ground arith, ground arith, ground arith, ground arith)

  step-IsPast :
      (e : Event) (i : ℕ) (m : Cond Queue) (p : Pc)
      → m.futex < 2 ^ 31
      → m.broadcast_seq ≤ m.futex
      → (is_waiting p ≡ true → IsPast m.futex m.broadcast_seq (locals p))
      → is_waiting (step k e i m p).1 ≡ true
      → IsPast m.futex m.broadcast_seq (locals (step k e i m p).1)
  unfolding step
  step-IsPast e i m p b le old w = (ground arith, ground arith, ground arith)

  -- A sleeper was one before, or is the mover, and no broadcast was made.
  step-asleep :
      (e : Event) (i : ℕ) (m : Cond Queue) (p : Pc) (j : ℕ)
      → sleeping (k.wake wake_every m.queue) j ≡ false
      → sleeping (step k e i m p).0.queue j ≡ true
      → ((i ≡ j) ⊎ (sleeping m.queue j ≡ true))
        × ((step k e i m p).0.broadcast_seq ≡ m.broadcast_seq)
  unfolding step
  step-asleep e i m p j all h = (
    ground (
      arith,
      k.sleeping-sleep i j m.queue,
      k.sleeping-leave i j m.queue,
      k.wake_old wake_one j m.queue,
    ),
    ground arith,
  )

  step-asleep_self :
      (e : Event) (i : ℕ) (m : Cond Queue) (p : Pc)
      → sleeping (k.wake wake_every m.queue) i ≡ false
      → (is_waiting p ≡ true → IsPast m.futex m.broadcast_seq (locals p))
      → (sleeping m.queue i ≡ true → (at_kernel p ≡ true) × ((locals p).bseq ≡ m.broadcast_seq))
      → sleeping (step k e i m p).0.queue i ≡ true
      → (at_kernel (step k e i m p).1 ≡ true)
        × ((locals (step k e i m p).1).bseq ≡ (step k e i m p).0.broadcast_seq)
  unfolding step
  step-asleep_self e i m p all past old h = (
    ground (arith, old, k.sleeping-leave i i m.queue, k.wake_old wake_one i m.queue),
    ground (arith, old, past, k.sleeping-leave i i m.queue, k.wake_old wake_one i m.queue),
  )

  -- The mover takes a signal only if it is sure, or gives one.
  step-signals :
      (e : Event) (i : ℕ) (m : Cond Queue) (p : Pc)
      → m.waiters ≤ max_threads
      → m.signal_num ≤ m.waiters
      → (sleeping m.queue i ≡ true → at_kernel p ≡ true)
      → let (m', p') = step k e i m p in
        (m'.signal_num ≡ 0)
        ⊎ (m'.signal_num + bit (is_sure m.futex (sleeping m.queue i) p)
            ≤ m.signal_num + bit (is_sure m'.futex (sleeping m'.queue i) p'))
        ⊎ ((m'.signal_num ≡ suc m.signal_num)
            × (m.signal_num < m.waiters)
            × (m'.futex ≡ (m.futex + 1) % 2 ^ 32)
            × (m'.queue ≡ k.wake wake_one m.queue)
            × (is_waiting p ≡ false))
  unfolding step
  step-signals e i m p few le at =
      ground (arith, k.sleeping-leave i i m.queue, k.sleeping-sleep i i m.queue)

  pub record Ready (n t : ℕ) (s : System Queue) : Type 0 where
    pub counted_by : s.mem.futex ≤ t
    pub order : s.mem.broadcast_seq ≤ s.mem.futex
    pub past :
        (i : ℕ)
        → is_waiting (s.pc i) ≡ true
        → IsPast s.mem.futex s.mem.broadcast_seq (locals (s.pc i))
    pub asleep :
        (i : ℕ)
        → sleeping s.mem.queue i ≡ true
        → (at_kernel (s.pc i) ≡ true) × ((locals (s.pc i)).bseq ≡ s.mem.broadcast_seq)
    pub ready :
        s.mem.signal_num ≤ count (λ j. is_sure s.mem.futex (sleeping s.mem.queue j) (s.pc j)) n

  module _ {n t : ℕ} {s : System Queue} (few : n ≤ max_threads) (inv : Inv k n s) (re : Ready n t s)
      (soon : t < 2 ^ 31) (e : Event) (i : ℕ) (lt : i < n) where
    open re use {counted_by, order, past, asleep, ready}

    abbrev mem' : Cond Queue
    mem' = (step k e i s.mem (s.pc i)).0

    abbrev pc' : ℕ → Pc
    pc' = put s.pc i (step k e i s.mem (s.pc i)).1

    abbrev sure : ℕ → Bool
    sure j = is_sure s.mem.futex (sleeping s.mem.queue j) (s.pc j)

    abbrev sure' : ℕ → Bool
    sure' j = is_sure mem'.futex (sleeping mem'.queue j) (pc' j)

    sleeper-below : (u : ℕ) → sleeping s.mem.queue u ≡ true → u < n
    sleeper-below u h = ground (arith, asleep u, inv.quiet u)

    all_awake : (j : ℕ) → sleeping (k.wake wake_every s.mem.queue) j ≡ false
    all_awake = k.wake_all wake_every n s.mem.queue few sleeper-below

    small : s.mem.futex < 2 ^ 31
    small = omega (arith, counted_by)

    keep-sure : (j : ℕ) → i ≢ j → sure j ≡ true → sure' j ≡ true
    keep-sure j d h = ground (
      arith,
      step-asleep e i s.mem (s.pc i) j (all_awake j),
      step-seqs e i s.mem (s.pc i) small order,
      past j,
    )

    step-seen :
        (j : ℕ) → is_waiting (pc' j) ≡ true → IsPast mem'.futex mem'.broadcast_seq (locals (pc' j))
    step-seen j w =
        let seqs = step-seqs e i s.mem (s.pc i) small order in
        let own = step-IsPast e i s.mem (s.pc i) small order (past i) in
        (ground (arith, own, past j), ground (arith, own, past j), ground (arith, own, past j))

    step-kernel :
        (j : ℕ)
        → sleeping mem'.queue j ≡ true
        → (at_kernel (pc' j) ≡ true) × ((locals (pc' j)).bseq ≡ mem'.broadcast_seq)
    step-kernel j h =
        let self = step-asleep_self e i s.mem (s.pc i) (all_awake i) (past i) (asleep i) in
        let other = step-asleep e i s.mem (s.pc i) j (all_awake j) h in
        (ground (arith, self, asleep j), ground (arith, self, asleep j))

    gives-ready :
        s.mem.signal_num < s.mem.waiters
        → mem'.signal_num ≡ suc s.mem.signal_num
        → mem'.futex ≡ (s.mem.futex + 1) % 2 ^ 32
        → mem'.queue ≡ k.wake wake_one s.mem.queue
        → is_waiting (s.pc i) ≡ false
        → mem'.signal_num ≤ count sure' n
    gives-ready below one next woke out = elim (dec_lt 0 (count (sleeping s.mem.queue) n)) [
      | yes some_asleep ↦
          let (v, _, v_asleep) = tally_find (sleeping s.mem.queue) (λ j. j) n some_asleep in
          let (u, before, after) = k.wake_some wake_one v s.mem.queue (omega arith) v_asleep in
          let awake : sleeping mem'.queue u ≡ false = ground arith in
          let was : at_kernel (s.pc u) ≡ true = (asleep u before).0 in
          let rest = count_but sure sure' n u (sleeper-below u before) (λ j lt d h.
            elim (ℕ_discrete i j) [ yes same ↦ ground arith | no other ↦ keep-sure j other h ]) in
          ground (arith, ready)
      | no none_asleep ↦
          let awake =
            count_le (λ j. is_waiting (s.pc j)) sure' n
              (λ j lt w. ground (
                arith,
                tally_pos (sleeping s.mem.queue) (λ j. j) n j lt,
                k.wake_old wake_one j s.mem.queue,
                past j,
              )) in
          omega (arith, awake, tally-count is_waiting s.pc n, inv.counted)
    ]

    step-ready : mem'.signal_num ≤ count sure' n
    step-ready =
        elim (step-signals e i s.mem (s.pc i) (few_waiters k few inv e i lt) inv.pending
          (λ h. (asleep i h).0)) [
            | inl none ↦ omega arith
            | inr (inl takes) ↦
                let rest = count_but sure sure' n i lt (λ j below d h. keep-sure j d h) in
                ground (arith, ready)
            | inr (inr (one, below, next, woke, out)) ↦ gives-ready below one next woke out
          ]

    pub step-Ready : Ready n (suc t) (record { mem = mem'; pc = pc' })
    step-Ready = record {
      counted_by = ground (arith, step-seqs e i s.mem (s.pc i) small order, counted_by);
      order = ground (arith, step-seqs e i s.mem (s.pc i) small order, order);
      past = step-seen;
      asleep = step-kernel;
      ready = step-ready;
    }
