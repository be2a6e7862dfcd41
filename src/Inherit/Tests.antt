-- ===== src/Inherit/Tests.antt =====
-- tb-mutexes.c, lines 226-275: runs of two threads over one priority-inherit mutex.
use threading_from_scratch.Prelude.{
  ℕ, zero, suc, ◌≡◌, refl, Bool, true, false, List, ◌∷◌, ◌++◌, replicate, arith,
}
use threading_from_scratch.Kernel.{sleepers}
use threading_from_scratch.Futex
use threading_from_scratch.Futex.{Event, lock, try_lock, unlock, go}
use threading_from_scratch.Inherit.{blocked, owning, outside, move}
use threading_from_scratch.Inherit.Threads.{Threads, internal, start, run}
use threading_from_scratch.Inherit.Inner.{inner_schedule, inherit_refines_futex}
use threading_from_scratch.Inherit.Invariant.{is_owner}
use threading_from_scratch.Inherit.Safety.{inherit_excludes, scheduled_owner}
use threading_from_scratch.Inherit.Retry.{Soon}
use threading_from_scratch.Inherit.Progress.{inherit_wakes}

abbrev after : List (ℕ × Event) → Threads (List Bool)
after xs = run sleepers 2 xs (start sleepers)

-- A call of thread `i` and its next `l` steps.
abbrev call : ℕ → Event → ℕ → List (ℕ × Event)
call i e l = (i, e) ∷ replicate l (i, go)

-- Thread 0 takes the mutex, and thread 1 finds it taken.
abbrev lends : List (ℕ × Event)
lends = call 0 lock 8 ++ call 1 lock 2

-- Thread 1 goes to sleep.
abbrev sleeps : List (ℕ × Event)
sleeps = call 0 lock 8 ++ call 1 lock 6

-- Thread 0 has given the mutex back, and has not yet made its FUTEX_WAKE.
abbrev releases : List (ℕ × Event)
releases = call 0 lock 8 ++ call 1 lock 6 ++ call 0 unlock 4

taken : (after sleeps).place 0 ≡ owning
unfolding run move Futex.step
taken = refl

asleep : (after sleeps).place 1 ≡ blocked
unfolding run move Futex.step
asleep = refl

handed_over : (after (releases ++ replicate 4 (0, go) ++ replicate 9 (1, go))).place 1 ≡ owning
unfolding run move Futex.step
handed_over = refl

try_fails : (after (call 0 lock 8 ++ call 1 try_lock 5)).place 1 ≡ outside
unfolding run move Futex.step
try_fails = refl

inherit_excludes_example : ◌≡◌ {A = ℕ} 0 0
unfolding run move Futex.step
inherit_excludes_example = inherit_excludes sleepers 2 sleeps 0 0 refl refl

scheduled_owner_example :
    (j : ℕ) × ((after lends).mem.owner ≡ suc j) × (is_owner ((after lends).place j) ≡ true)
unfolding run move Futex.step
scheduled_owner_example = scheduled_owner sleepers 2 lends 1 refl

released : (i : ℕ) → is_owner ((after releases).place i) ≡ false
unfolding run move Futex.step
released zero = refl
released (suc zero) = refl
released (suc (suc i)) = ground arith

inherit_wakes_example : Soon sleepers 2 8 (after releases)
unfolding run move Futex.step
inherit_wakes_example = inherit_wakes sleepers 2 releases 1 refl released

inherit_refines_futex_run :
    internal (after releases)
    ≡ Futex.Threads.run sleepers 2
        (inner_schedule sleepers 2 releases (start sleepers))
        (Futex.Threads.start sleepers)
inherit_refines_futex_run = inherit_refines_futex sleepers 2 releases
