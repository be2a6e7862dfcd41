-- ===== src/Once/Tests.antt =====
-- tb-threads.c, lines 419-473: runs of two threads over one word.
use threading_from_scratch.Prelude.{ℕ, ◌≤◌, ◌≡◌, ◌⊎◌, refl, true, List, [], ◌∷◌, arith}
use threading_from_scratch.Kernel.{sleepers}
use threading_from_scratch.Once.{in_kernel, canceled, returned, Event, call, go, cancel, step}
use threading_from_scratch.Once.Threads.{start, run}
use threading_from_scratch.Once.Invariant.{is_executor, is_waker}
use threading_from_scratch.Once.Exactly.{uncanceled, once_exact}
use threading_from_scratch.Once.Safety.{once_exclusive, once-wakes}

-- Thread 0 calls the function, and thread 1 sleeps.
abbrev contend : List (ℕ × Event)
contend =
    (0, call 9 9)
    ∷ (0, go)
    ∷ (0, go)
    ∷ (0, go)
    ∷ (0, go)
    ∷ (1, call 9 9)
    ∷ (1, go)
    ∷ (1, go)
    ∷ (1, go)
    ∷ (1, go)
    ∷ []

contended : (run sleepers 2 contend (start sleepers)).pc 1 ≡ in_kernel
unfolding run step
contended = refl

-- Then thread 0 ends, and thread 1 returns.
abbrev both : List (ℕ × Event)
both =
    (0, call 9 9)
    ∷ (0, go)
    ∷ (0, go)
    ∷ (0, go)
    ∷ (0, go)
    ∷ (1, call 9 9)
    ∷ (1, go)
    ∷ (1, go)
    ∷ (1, go)
    ∷ (1, go)
    ∷ (0, go)
    ∷ (0, go)
    ∷ (0, go)
    ∷ (0, go)
    ∷ (0, go)
    ∷ (1, go)
    ∷ (1, go)
    ∷ (1, go)
    ∷ []

-- Then thread 0 is canceled in the function, and thread 1 runs it once more.
abbrev again : List (ℕ × Event)
again =
    (0, call 9 9)
    ∷ (0, go)
    ∷ (0, go)
    ∷ (0, go)
    ∷ (0, go)
    ∷ (1, call 9 9)
    ∷ (1, go)
    ∷ (1, go)
    ∷ (1, go)
    ∷ (1, go)
    ∷ (0, cancel)
    ∷ (0, go)
    ∷ (0, go)
    ∷ (1, go)
    ∷ (1, go)
    ∷ (1, go)
    ∷ (1, go)
    ∷ (1, go)
    ∷ (1, go)
    ∷ (1, go)
    ∷ (1, go)
    ∷ (1, go)
    ∷ (1, go)
    ∷ (1, go)
    ∷ []

ran_again :
    ((run sleepers 2 again (start sleepers)).pc 0 ≡ canceled)
    × ((run sleepers 2 again (start sleepers)).pc 1 ≡ returned)
    × ((run sleepers 2 again (start sleepers)).mem.started ≡ 2)
    × ((run sleepers 2 again (start sleepers)).mem.completed ≡ 1)
unfolding run step
ran_again = (refl, refl, refl, refl)

once_exclusive_run :
    ((i j : ℕ)
      → is_executor ((run sleepers 2 again (start sleepers)).pc i) ≡ true
      → is_executor ((run sleepers 2 again (start sleepers)).pc j) ≡ true
      → i ≡ j)
    × ((i : ℕ)
        → (run sleepers 2 again (start sleepers)).pc i ≡ returned
        → (1 ≤ (run sleepers 2 again (start sleepers)).mem.completed)
          × ((run sleepers 2 again (start sleepers)).mem.once ≡ 2))
once_exclusive_run = once_exclusive sleepers 2 (omega arith) again

once-wakes_example :
    (i : ℕ) × ((is_executor ((run sleepers 2 contend (start sleepers)).pc i) ≡ true)
      ⊎ (is_waker ((run sleepers 2 contend (start sleepers)).pc i) ≡ true))
unfolding run step
once-wakes_example = once-wakes sleepers 2 (omega arith) contend 1 refl

once_exact_example :
    ((run sleepers 2 both (start sleepers)).mem.started ≤ 1)
    × ((i : ℕ)
        → (run sleepers 2 both (start sleepers)).pc i ≡ returned
        → ((run sleepers 2 both (start sleepers)).mem.started ≡ 1)
          × ((run sleepers 2 both (start sleepers)).mem.completed ≡ 1))
unfolding uncanceled
once_exact_example = once_exact sleepers 2 both (omega arith) refl

both_returned :
    ((run sleepers 2 both (start sleepers)).pc 0 ≡ returned)
    × ((run sleepers 2 both (start sleepers)).pc 1 ≡ returned)
unfolding run step
both_returned = (refl, refl)
