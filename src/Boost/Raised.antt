-- ===== src/Boost/Raised.antt =====
-- tb-mutexes.c, lines 226-275, with tb-sched.c: the thread that has a priority-inherit mutex runs with
-- the priorities that were lent to it.
use threading_from_scratch.Prelude.{
  ℕ, ◌<◌, ◌≡◌, inl, inr, true, ltb, ltb→lt, Bool-cases, none, List, [], ◌∷◌, arith,
}
use threading_from_scratch.Kernel.{Kernel}
use threading_from_scratch.Futex.{Event}
use threading_from_scratch.Inherit
use threading_from_scratch.Inherit.{Mutex, Place, move}
use threading_from_scratch.Inherit.Kept.{turn-Fields, start-Fields}
use threading_from_scratch.Inherit.Threads.{Threads}
use threading_from_scratch.Sched.{Scheduler, Thread, sched_info_priority, find_inherit}
use threading_from_scratch.Sched.Effective.{unpack}
use threading_from_scratch.Sched.Current.{IsSettable}
use threading_from_scratch.Sched.Kept.{Kept, Grants}
use threading_from_scratch.Sched.Elements.{Kept-meets}
use threading_from_scratch.Boost.{next_call, make_call, lend}
use threading_from_scratch.Boost.Steps.{Boosted, turn, run}
use threading_from_scratch.Boost.Kept.{is_boosted, move-Turns}
use threading_from_scratch.Boost.Steps.{start}
use threading_from_scratch.Boost.Calls.{NoHigher, NoHigher-mono, Sound, Raised, call-After}

module _ (k : Kernel) (sys : Scheduler) (infos : ℕ → ℕ) (m n : ℕ) (grants : Grants sys)
    (settable : (b : ℕ) → IsSettable (unpack (infos b))) where
  open k use {Queue}

  turn-Sound :
      (s : Boosted Queue) (i : ℕ) (e : Event)
      → i < n
      → Raised sys infos m grants settable k n s
      → (j : ℕ)
      → Sound sys infos m grants settable
          (is_boosted ((Inherit.Threads.turn k n (i, e) s.threads).place j))
          (lend (next_call e (s.threads.place i) (s.threads.pc i)) (s.scheds i).sched_info s.lent)
          (make_call sys infos m
            (next_call e (s.threads.place i) (s.threads.pc i))
            i
            s.threads.mem.owner
            s.scheds
            j)
  unfolding Inherit.Threads.turn
  turn-Sound s i e lt inv j =
      let turns = move-Turns k e i s.threads.mem (s.threads.place i) (s.threads.pc i) in
      let place' = (move k e i s.threads.mem (s.threads.place i) (s.threads.pc i)).1 in
      let below : ltb i n ≡ true = ground arith in
      rw below (
        call-After sys infos m grants settable k inv i place'
          (next_call e (s.threads.place i) (s.threads.pc i)) turns j)

  turn-Raised :
      (s : Boosted Queue) (x : ℕ × Event)
      → Raised sys infos m grants settable k n s
      → Raised sys infos m grants settable k n (turn k sys infos m n x s)
  unfolding turn
  turn-Raised s (i, e) inv = elim (Bool-cases (ltb i n)) [
    | inr ge ↦ rw ge inv
    | inl lt ↦ rw lt (record {
      fields = turn-Fields k n s.threads (i, e) inv.fields;
      sound = turn-Sound s i e (ltb→lt i n lt) inv;
    })
  ]

  run-Raised :
      (s : Boosted Queue) (xs : List (ℕ × Event))
      → Raised sys infos m grants settable k n s
      → Raised sys infos m grants settable k n (run k sys infos m n xs s)
  unfolding run
  run-Raised s [] inv = inv
  run-Raised s (x ∷ xs) inv = run-Raised (turn k sys infos m n x s) xs (turn-Raised s x inv)

  module _ (scheds : ℕ → Thread) (kept : (j : ℕ) → Kept infos (scheds j))
      (fresh : (j : ℕ) → find_inherit m (scheds j).inherit_mutexes ≡ none)
      (xs : List (ℕ × Event)) where
    abbrev now : Boosted Queue
    now = run k sys infos m n xs (start k sys infos m n scheds)

    -- Take any number of threads whose scheduling is what tb_compute_sched makes of their valid
    -- requests and who have no element of one priority-inherit mutex, on a kernel that grants every
    -- valid policy and priority, and memory for the element. After any schedule of their calls on the
    -- mutex, the thread that has it, from the end of line 237 to its call in line 269, runs with
    -- at least the priority of each thread that came to wait, in line 240, since it took the mutex.
    pub owner_boosted :
        (j : ℕ)
        → is_boosted (now.threads.place j) ≡ true
        → NoHigher (sched_info_priority (now.scheds j).sched_info) now.lent
    owner_boosted j b =
        let inv = run-Raised (start k sys infos m n scheds) xs (record {
          fields = start-Fields k n;
          sound = λ i. record { kept = kept i; gone = λ e. fresh i; held = λ e. cc };
        }) in
        let sound = inv.sound j in
        let (im, holds, high) = sound.held b in
        NoHigher-mono _ _ now.lent (Kept-meets infos m im (now.scheds j) settable sound.kept holds)
          high
