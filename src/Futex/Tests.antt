-- ===== src/Futex/Tests.antt =====
-- tb-mutexes.c, lines 83-106: runs of two threads over one futex word.
use threading_from_scratch.Prelude.{
  ℕ, zero, suc, ◌≤◌, ◌≡◌, ◌↔◌, refl, true, false, List, [], ◌∷◌, arith,
}
use threading_from_scratch.Kernel.{sleepers}
use threading_from_scratch.Futex.{
  Pc, in_kernel, holding, Event, lock, try_lock, unlock, go, interrupt, step,
}
use threading_from_scratch.Futex.Threads.{start, run}
use threading_from_scratch.Futex.Invariant.{is_holding}
use threading_from_scratch.Futex.Safety.{mutual_exclusion, word_iff_held}
use threading_from_scratch.Futex.Progress.{Soon, no_lost_wakeup}

-- Thread 0 takes the lock, thread 1 fails to, and goes to sleep.
abbrev contend : List (ℕ × Event)
contend = (0, lock) ∷ (0, go) ∷ (1, lock) ∷ (1, go) ∷ (1, go) ∷ []

contended : (run sleepers 2 contend (start sleepers)).pc 1 ≡ in_kernel
unfolding run step
contended = refl

mutual_exclusion_example : ◌≡◌ {A = ℕ} 0 0
unfolding run step
mutual_exclusion_example = mutual_exclusion sleepers 2 contend 0 0 refl refl

word_iff_held_run :
    ((run sleepers 2 contend (start sleepers)).mem.futex ≤ 1)
    × (((run sleepers 2 contend (start sleepers)).mem.futex ≡ 1)
        ↔ ((i : ℕ) × (is_holding ((run sleepers 2 contend (start sleepers)).pc i) ≡ true)))
word_iff_held_run = word_iff_held sleepers 2 contend

-- Thread 0 has given the lock back, and has not yet made its FUTEX_WAKE.
abbrev release : List (ℕ × Event)
release = (0, lock) ∷ (0, go) ∷ (1, lock) ∷ (1, go) ∷ (1, go) ∷ (0, unlock) ∷ []

released : (i : ℕ) → is_holding ((run sleepers 2 release (start sleepers)).pc i) ≡ false
unfolding run step
released zero = refl
released (suc zero) = refl
released (suc (suc i)) = ground arith

no_lost_wakeup_example : Soon sleepers 2 3 (run sleepers 2 release (start sleepers))
unfolding run step
no_lost_wakeup_example = no_lost_wakeup sleepers 2 release 1 refl released

-- A try on a lock that is held fails, and one after an interrupted wait may succeed.
try_fails :
    (run sleepers 2 ((0, lock) ∷ (0, go) ∷ (1, try_lock) ∷ []) (start sleepers)).pc 1 ≡ Pc.idle
unfolding run step
try_fails = refl

interrupted :
    (run sleepers 2
        ((0, lock)
          ∷ (0, go)
          ∷ (1, lock)
          ∷ (1, go)
          ∷ (1, go)
          ∷ (1, interrupt)
          ∷ (0, unlock)
          ∷ (1, go)
          ∷ [])
        (start sleepers)).pc
      1
    ≡ holding
unfolding run step
interrupted = refl
