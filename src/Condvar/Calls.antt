-- ===== src/Condvar/Calls.antt =====
-- tb-condvar.c, lines 29-113: who hears a signal and a broadcast.
use threading_from_scratch.Prelude.{
  ℕ,
  suc,
  ◌+◌,
  ◌^◌,
  ◌≤◌,
  ◌<◌,
  ◌≡◌,
  Bool,
  true,
  false,
  ◌&&◌,
  List,
  [],
  ◌∷◌,
  length,
  arith,
  Threads.{tally_pos, tally-le},
}
use threading_from_scratch.Kernel.{Kernel, max_threads}
use threading_from_scratch.Condvar.{Cond, Pc, idle, returned, Event, signal, broadcast, step}
use threading_from_scratch.Condvar.Threads.{System, start, turn, run}
use threading_from_scratch.Condvar.Counts.{is_waiting, locals, Inv, turn-Inv}
use threading_from_scratch.Condvar.Wakeups.{Ready, step-seqs}
use threading_from_scratch.Condvar.Progress.{
  Leaves, turn-Ready, run-Ready, reached_run, signal-Leaves, news-Leaves,
}

-- A thread that is in no call of the condition variable.
abbrev pub may_call : Pc → Bool
may_call idle = true
may_call (returned st) = true
may_call p = false

module _ (k : Kernel) (n : ℕ) where
  open k use {Queue}

  -- A thread is in one wait all through a schedule.
  abbrev pub keeps_waiting : ℕ → List (ℕ × Event) → System Queue → Bool
  keeps_waiting i [] s = is_waiting (s.pc i)
  keeps_waiting i (x ∷ xs) s = is_waiting (s.pc i) && keeps_waiting i xs (turn k n x s)

  keeps_waiting-first :
      (i : ℕ) (xs : List (ℕ × Event)) (s : System Queue)
      → keeps_waiting i xs s ≡ true
      → is_waiting (s.pc i) ≡ true
  keeps_waiting-first i [] s w = w
  keeps_waiting-first i (x ∷ xs) s w = ground arith

  keeps_waiting-last :
      (i : ℕ) (xs : List (ℕ × Event)) (s : System Queue)
      → keeps_waiting i xs s ≡ true
      → is_waiting ((run k n xs s).pc i) ≡ true
  unfolding run
  keeps_waiting-last i [] s w = w
  keeps_waiting-last i (x ∷ xs) s w = keeps_waiting-last i xs (turn k n x s) (ground arith)

  step-bseq :
      (e : Event) (i : ℕ) (m : Cond Queue) (p : Pc)
      → is_waiting p ≡ true
      → is_waiting (step k e i m p).1 ≡ true
      → (locals (step k e i m p).1).bseq ≡ (locals p).bseq
  unfolding step
  step-bseq e i m p w w' = ground arith

  -- A broadcast was made since the thread's first look.
  abbrev IsNews : ℕ → System Queue → Type 0
  IsNews i s = (locals (s.pc i)).bseq < s.mem.broadcast_seq

  turn-IsNews :
      (t i : ℕ) (s : System Queue) (x : ℕ × Event)
      → t < 2 ^ 31
      → Ready k n t s
      → is_waiting (s.pc i) ≡ true
      → is_waiting ((turn k n x s).pc i) ≡ true
      → IsNews i s
      → IsNews i (turn k n x s)
  unfolding turn
  turn-IsNews t i s (j, e) soon re w w' news = ground (
    arith,
    step-seqs k e j s.mem (s.pc j) (omega (arith, re.counted_by)) re.order,
    step-bseq e j s.mem (s.pc j),
  )

  module _ (few : n ≤ max_threads) where
    run-IsNews :
        (t i : ℕ) (s : System Queue) (xs : List (ℕ × Event))
        → t + length xs ≤ 2 ^ 31
        → Inv k n s
        → Ready k n t s
        → keeps_waiting i xs s ≡ true
        → IsNews i s
        → IsNews i (run k n xs s)
    unfolding run
    run-IsNews t i s [] short inv re w news = news
    run-IsNews t i s (x ∷ xs) short inv re w news =
        let later : keeps_waiting i xs (turn k n x s) ≡ true = ground arith in
        run-IsNews (suc t) i (turn k n x s) xs (omega arith) (turn-Inv k n s x few inv)
          (turn-Ready k n t s x few (omega arith) inv re) later
          (turn-IsNews t i s x (omega arith) re (ground arith) (keeps_waiting-first i xs _ later)
            news)

    broadcast-IsNews :
        (t i j : ℕ) (s : System Queue)
        → t < 2 ^ 31
        → Inv k n s
        → Ready k n t s
        → j < n
        → may_call (s.pc j) ≡ true
        → is_waiting (s.pc i) ≡ true
        → IsNews i (turn k n (j, broadcast) s)
    unfolding turn step
    broadcast-IsNews t i j s soon inv re lt free w = ground (
      arith,
      inv.counted,
      tally_pos is_waiting s.pc n i (ground (arith, inv.quiet i)) w,
      re.past i w,
      re.order,
      re.counted_by,
    )

    signal-pending :
        (i j : ℕ) (s : System Queue)
        → Inv k n s
        → s.mem.signal_num < 2 ^ 31
        → j < n
        → may_call (s.pc j) ≡ true
        → is_waiting (s.pc i) ≡ true
        → 0 < (turn k n (j, signal) s).mem.signal_num
    unfolding turn step
    signal-pending i j s inv small lt free w =
        ground (arith, inv.counted, tally_pos is_waiting s.pc n i (ground (arith, inv.quiet i)) w)

    -- Over one condition variable, at most 2^31 - 1 threads, any of whose waits in the kernel may end
    -- without a wake; after any schedule `xs` in which thread `i` has come to wait and thread `j` is in
    -- no call, and any schedule `ys` behind it, of together fewer than 2^31 - 1 events: if `j` signals
    -- after `xs`, a signal is pending; while one is pending, also after `ys`, some waiting thread leaves
    -- its wait with at most two steps of its own and none of another thread; and if `j` broadcasts after
    -- `xs`, and `i` is in its wait all through `ys`, then `i` leaves it in this way.
    pub cond-wakes :
        (xs ys : List (ℕ × Event)) (i j : ℕ)
        → length xs + length ys + 1 < 2 ^ 31
        → j < n
        → may_call ((run k n xs (start k)).pc j) ≡ true
        → is_waiting ((run k n xs (start k)).pc i) ≡ true
        → let signaled = turn k n (j, signal) (run k n xs (start k)) in
          let told = turn k n (j, broadcast) (run k n xs (start k)) in
          (0 < signaled.mem.signal_num)
          × (0 < (run k n ys signaled).mem.signal_num
              → (u : ℕ) × (is_waiting ((run k n ys signaled).pc u) ≡ true)
                × Leaves k n u (run k n ys signaled))
          × (keeps_waiting i ys told ≡ true → Leaves k n i (run k n ys told))
    cond-wakes xs ys i j short lt free w =
        let s = run k n xs (start k) in
        let (inv, re) = reached_run k n xs few (omega arith) in
        let after : (e : Event)
            → Inv k n (run k n ys (turn k n (j, e) s))
              × Ready k n (suc (length xs) + length ys) (run k n ys (turn k n (j, e) s)) =
          λ e.
            run-Ready k n (suc (length xs)) (turn k n (j, e) s) ys few (omega arith)
              (turn-Inv k n s (j, e) few inv)
              (turn-Ready k n (length xs) s (j, e) few (omega arith) inv re) in
        (
          signal-pending i j s inv
              (omega (arith, inv.pending, inv.counted, tally-le is_waiting s.pc n)) lt free w,
          signal-Leaves k n (after signal).0 (after signal).1 (omega arith),
          λ stays.
              let news =
                run-IsNews (suc (length xs)) i (turn k n (j, broadcast) s) ys (omega arith)
                  (turn-Inv k n s (j, broadcast) few inv)
                  (turn-Ready k n (length xs) s (j, broadcast) few (omega arith) inv re) stays
                  (broadcast-IsNews (length xs) i j s (omega arith) inv re lt free w) in
              news-Leaves k n (after broadcast).0 (after broadcast).1 (omega arith) i
                (keeps_waiting-last i ys (turn k n (j, broadcast) s) stays) (λ e. omega arith),
        )
