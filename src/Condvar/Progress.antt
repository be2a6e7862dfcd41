-- ===== src/Condvar/Progress.antt =====
-- tb-condvar.c, lines 29-113: a signal or a broadcast is heard by a thread that needs no other wake-up.
use threading_from_scratch.Prelude.{
  ℕ,
  zero,
  suc,
  ◌+◌,
  ◌^◌,
  ◌≤◌,
  ◌<◌,
  ◌≡◌,
  ◌≢◌,
  refl,
  subst,
  ◌⊎◌,
  inl,
  inr,
  Bool,
  true,
  false,
  ltb,
  ltb→lt,
  Bool-cases,
  List,
  [],
  ◌∷◌,
  length,
  arith,
  Outcome.{Outcome, ok, err, eagain},
  Threads.{tally_find},
}
use threading_from_scratch.Kernel.{Kernel, max_threads}
use threading_from_scratch.Condvar.{
  Locals, Pc, idle, waiting, in_kernel, woken, relocking, returned, Event, go, step,
}
use threading_from_scratch.Condvar.Threads.{System, start, turn, run}
use threading_from_scratch.Condvar.Counts.{is_waiting, locals, Inv, turn-Inv, start-Inv}
use threading_from_scratch.Condvar.Wakeups.{is_sure, Ready, step-Ready}

abbrev pub has_left : Pc → Bool
has_left (relocking x st) = true
has_left _ = false

-- A number of steps of one thread.
abbrev pub own : ℕ → ℕ → List (ℕ × Event)
own zero i = []
own (suc m) i = (i, go) ∷ own m i

module _ (k : Kernel) (n : ℕ) where
  open k use {Queue, sleeping}

  -- With at most two steps of its own, and none of another thread, the thread is past its wait.
  abbrev pub Leaves : ℕ → System Queue → Type 0
  Leaves i s = (m : ℕ) × (m ≤ 2) × (has_left ((run k n (own m i) s).pc i) ≡ true)

  woken-Leaves :
      (i : ℕ) (s : System Queue) (l : Locals) (st : Outcome)
      → i < n
      → s.pc i ≡ woken l st
      → s.mem.broadcast_seq < 2 ^ 31
      → l.bseq ≤ s.mem.broadcast_seq
      → (0 < s.mem.signal_num) ⊎ (l.bseq ≢ s.mem.broadcast_seq)
      → has_left ((turn k n (i, go) s).pc i) ≡ true
  unfolding turn step
  woken-Leaves i s l st lt at small old news = ground arith

  sure-Leaves :
      (i : ℕ) (s : System Queue) (p : Pc)
      → i < n
      → s.pc i ≡ p
      → is_sure s.mem.futex (sleeping s.mem.queue i) p ≡ true
      → s.mem.broadcast_seq < 2 ^ 31
      → (locals p).bseq ≤ s.mem.broadcast_seq
      → (0 < s.mem.signal_num) ⊎ ((locals p).bseq ≢ s.mem.broadcast_seq)
      → Leaves i s
  unfolding run turn step
  sure-Leaves i s (woken l st) lt at sure small old news =
      (1, omega arith, woken-Leaves i s l st lt at small old news)
  sure-Leaves i s (waiting l) lt at sure small old news = (
    2,
    omega arith,
    woken-Leaves i (turn k n (i, go) s) l (err eagain) lt (ground arith) (ground arith)
        (ground arith) (ground arith),
  )
  sure-Leaves i s (in_kernel l) lt at sure small old news = (
    2,
    omega arith,
    woken-Leaves i (turn k n (i, go) s) l ok lt (ground arith) (ground arith) (ground arith)
        (ground arith),
  )
  sure-Leaves i s idle lt at sure small old news = ground arith
  sure-Leaves i s (relocking x st) lt at sure small old news = ground arith
  sure-Leaves i s (returned st) lt at sure small old news = ground arith

  pub turn-Ready :
      (t : ℕ) (s : System Queue) (x : ℕ × Event)
      → n ≤ max_threads
      → t < 2 ^ 31
      → Inv k n s
      → Ready k n t s
      → Ready k n (suc t) (turn k n x s)
  unfolding turn
  turn-Ready t s (i, e) few soon inv re = elim (Bool-cases (ltb i n)) [
    | inl lt ↦ rw lt (step-Ready k few inv re soon e i (ltb→lt i n lt))
    | inr ge ↦ rw ge (record {
      counted_by = omega (arith, re.counted_by);
      order = re.order;
      past = re.past;
      asleep = re.asleep;
      ready = re.ready;
    })
  ]

  pub run-Ready :
      (t : ℕ) (s : System Queue) (xs : List (ℕ × Event))
      → n ≤ max_threads
      → t + length xs ≤ 2 ^ 31
      → Inv k n s
      → Ready k n t s
      → Inv k n (run k n xs s) × Ready k n (t + length xs) (run k n xs s)
  unfolding run
  run-Ready t s [] few short inv re = (inv, subst (λ u. Ready k n u s) (omega arith) re)
  run-Ready t s (x ∷ xs) few short inv re =
      let (inv', re') =
        run-Ready (suc t) (turn k n x s) xs few (omega arith) (turn-Inv k n s x few inv)
          (turn-Ready t s x few (omega arith) inv re) in
      (inv', subst (λ u. Ready k n u (run k n (x ∷ xs) s)) (omega arith) re')

  pub start-Ready : Ready k n 0 (start k)
  start-Ready = record {
    counted_by = omega arith;
    order = omega arith;
    past = λ i w. ground arith;
    asleep = λ i h. cc (k.sleeping-nobody i);
    ready = omega arith;
  }

  pub reached_run :
      (xs : List (ℕ × Event))
      → n ≤ max_threads
      → length xs < 2 ^ 31
      → Inv k n (run k n xs (start k)) × Ready k n (length xs) (run k n xs (start k))
  reached_run xs few short =
      let (inv, re) = run-Ready 0 (start k) xs few (omega arith) (start-Inv k n) start-Ready in
      (inv, subst (λ u. Ready k n u (run k n xs (start k))) (omega arith) re)

  module _ {t : ℕ} {s : System Queue} (inv : Inv k n s) (re : Ready k n t s)
      (soon : t < 2 ^ 31) where
    small : s.mem.broadcast_seq < 2 ^ 31
    small = omega (arith, re.order, re.counted_by)

    -- A signal is pending: some waiting thread needs no wake-up.
    pub signal-Leaves : 0 < s.mem.signal_num → (i : ℕ) × (is_waiting (s.pc i) ≡ true) × Leaves i s
    signal-Leaves some_signal =
        let (i, lt, sure) =
          tally_find (λ j. is_sure s.mem.futex (sleeping s.mem.queue j) (s.pc j)) (λ j. j) n
            (omega (arith, re.ready)) in
        let w : is_waiting (s.pc i) ≡ true = ground arith in
        (i, w, sure-Leaves i s (s.pc i) lt refl sure small (re.past i w).1 (inl some_signal))

    -- A waiting thread that has not seen the last broadcast needs none.
    pub news-Leaves :
        (i : ℕ)
        → is_waiting (s.pc i) ≡ true
        → (locals (s.pc i)).bseq ≢ s.mem.broadcast_seq
        → Leaves i s
    news-Leaves i w news =
        let p = re.past i w in
        sure-Leaves i s (s.pc i) (ground (arith, inv.quiet i)) refl (ground (arith, re.asleep i))
          small p.1 (inr news)
