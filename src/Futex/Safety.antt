-- ===== src/Futex/Safety.antt =====
-- tb-mutexes.c, lines 83-106: the lock is exclusive.
use threading_from_scratch.Prelude.{
  ℕ,
  ◌≤◌,
  ◌<◌,
  ◌≡◌,
  ◌↔◌,
  true,
  List,
  arith,
  Threads.{tally_pos, tally_two, tally_find},
}
use native.Mathlib.Decide.{ℕ_discrete, dec_lt}
use threading_from_scratch.Kernel.{Kernel}
use threading_from_scratch.Futex.{Event}
use threading_from_scratch.Futex.Threads.{System, start, run}
use threading_from_scratch.Futex.Invariant.{is_holding, Inv, reached-Inv}

module _ (k : Kernel) {n : ℕ} {s : System k.Queue} (inv : Inv k n s) where
  below : (i : ℕ) → is_holding (s.pc i) ≡ true → i < n
  below i h = elim (dec_lt i n) [ yes lt ↦ lt | no ge ↦ ground (arith, inv.quiet i) ]

  pub exclusive : (i j : ℕ) → is_holding (s.pc i) ≡ true → is_holding (s.pc j) ≡ true → i ≡ j
  exclusive i j hi hj = elim (ℕ_discrete i j) [
    | yes e ↦ e
    | no d ↦ absurd (
        omega (
          arith,
          inv.binary,
          inv.held,
          tally_two is_holding s.pc n i j (below i hi) (below j hj) d hi hj,
        ))
  ]

module _ (k : Kernel) (n : ℕ) (xs : List (ℕ × Event)) where
  abbrev reached : System k.Queue
  reached = run k n xs (start k)

  inv : Inv k n reached
  inv = reached-Inv k n xs

  -- After any schedule of any number of threads over one futex word, at most one thread has the
  -- lock: two that do are one.
  pub mutual_exclusion :
      (i j : ℕ) → is_holding (reached.pc i) ≡ true → is_holding (reached.pc j) ≡ true → i ≡ j
  mutual_exclusion = exclusive k inv

  -- After any schedule of any number of threads over one futex word, the word is 0 or 1, and it is 1
  -- exactly when some thread has the lock.
  pub word_iff_held :
      (reached.mem.futex ≤ 1)
      × ((reached.mem.futex ≡ 1) ↔ ((i : ℕ) × (is_holding (reached.pc i) ≡ true)))
  word_iff_held = (
    inv.binary,
    (
      λ e. let (i, lt, h) = tally_find is_holding reached.pc n (omega (arith, inv.held)) in (i, h),
      λ (i, h).
          omega
            (arith, inv.binary, inv.held, tally_pos is_holding reached.pc n i (below k inv i h) h),
    ),
  )
