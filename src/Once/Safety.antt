-- ===== src/Once/Safety.antt =====
-- tb-threads.c, lines 419-473: one executor at a time, a function that has returned, and no sleeper
-- that nobody will wake.
use threading_from_scratch.Prelude.{
  ℕ,
  ◌≤◌,
  ◌<◌,
  ◌≡◌,
  ◌⊎◌,
  inl,
  inr,
  true,
  List,
  arith,
  Threads.{tally_two, tally_find},
}
use native.Mathlib.Decide.{ℕ_discrete, dec_lt}
use threading_from_scratch.Kernel.{Kernel, max_threads}
use threading_from_scratch.Once.{Event, returned}
use threading_from_scratch.Once.Threads.{System, start, run}
use threading_from_scratch.Once.Invariant.{is_executor, is_waker, Inv, reached-Inv}

module _ (k : Kernel) (n : ℕ) (few : n ≤ max_threads) (xs : List (ℕ × Event)) where
  abbrev reached : System k.Queue
  reached = run k n xs (start k)

  inv : Inv k n reached
  inv = reached-Inv k n xs few

  below : (i : ℕ) → is_executor (reached.pc i) ≡ true → i < n
  below i h = elim (dec_lt i n) [ yes lt ↦ lt | no ge ↦ ground (arith, inv.quiet i) ]

  -- After any schedule of at most 2^31 - 1 threads in tbthread_once over one word, cancelations
  -- included: two threads that are both between the swap of the word and its next change are one
  -- thread; and if some thread has returned 0, the function has returned at least once, and the
  -- word is TB_ONCE_DONE.
  pub once_exclusive :
      ((i j : ℕ) → is_executor (reached.pc i) ≡ true → is_executor (reached.pc j) ≡ true → i ≡ j)
      × ((i : ℕ) → reached.pc i ≡ returned → (1 ≤ reached.mem.completed) × (reached.mem.once ≡ 2))
  once_exclusive = (
    λ i j hi hj. elim (ℕ_discrete i j) [
      | yes e ↦ e
      | no d ↦
          let two = tally_two is_executor reached.pc n i j (below i hi) (below j hj) d hi hj in
          absurd (ground (arith, inv.executor))
    ],
    λ i h. ground (arith, inv.past i, inv.done),
  )

  -- After any schedule of at most 2^31 - 1 threads in tbthread_once over one word, cancelations
  -- included: if a thread sleeps on the word, some thread is between the swap of the word and its
  -- next change, or has changed the word and is about to wake all sleepers.
  pub once-wakes :
      (j : ℕ)
      → k.sleeping reached.mem.queue j ≡ true
      → (i : ℕ) × ((is_executor (reached.pc i) ≡ true) ⊎ (is_waker (reached.pc i) ≡ true))
  once-wakes j h = elim (inv.live j h) [
    | inl runs ↦
        let (i, lt, e) = tally_find is_executor reached.pc n (ground (arith, inv.executor)) in
        (i, inl e)
    | inr (i, w) ↦ (i, inr w)
  ]
