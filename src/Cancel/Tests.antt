-- ===== src/Cancel/Tests.antt =====
-- tb-cancel.c: two threads cancel a third that tests twice, and cleanup handlers.
use threading_from_scratch.Prelude.{
  ℕ,
  ◌+◌,
  ◌≤◌,
  ◌≡◌,
  true,
  refl,
  List,
  [],
  ◌∷◌,
  length,
  Threads.{bit, tally},
}
use threading_from_scratch.Cancel.{exiting, Event, cancel, testcancel, go, setcanceltype, step}
use threading_from_scratch.Cancel
use threading_from_scratch.Cancel.Old
use threading_from_scratch.Cancel.Old.{Chain, old_bit, set_old-Chain}
use threading_from_scratch.Cancel.Threads.{start, run}
use threading_from_scratch.Cancel.Safety.{is_exiting, is_killing, canceled_once}
use threading_from_scratch.Cancel.Heard.{Exits, cancel-heard}
use native.Mathlib.Omega.{arith}
use threading_from_scratch.Cancel.Cleanup.{
  Handler, push_all, pop_many, backwards, tb_call_cleanup_handlers, cleanup_lifo,
}

abbrev race : List (ℕ × Event)
race =
    (0, cancel true)
    ∷ (1, cancel true)
    ∷ (0, go)
    ∷ (1, go)
    ∷ (0, go)
    ∷ (1, go)
    ∷ (1, go)
    ∷ (2, testcancel)
    ∷ (3, testcancel)
    ∷ (2, go)
    ∷ (3, go)
    ∷ (3, go)
    ∷ (2, go)
    ∷ (2, go)
    ∷ []

raced : (run 4 race start).pc 3 ≡ exiting
unfolding run step
raced = refl

asynchronous :
    (run 2
      ((1, setcanceltype 0)
        ∷ (1, go)
        ∷ (1, go)
        ∷ (1, go)
        ∷ (0, cancel true)
        ∷ (0, go)
        ∷ (0, go)
        ∷ (0, go)
        ∷ [])
      start).mem.signals
    ≡ 1
unfolding run step
asynchronous = refl

canceled_once_example :
    let s = run 4 race start in
    (s.mem.exits ≡ bit s.mem.status.canceled)
    × (bit s.mem.status.canceled ≤ bit s.mem.status.canceling)
    × (tally is_exiting s.pc 4 ≡ s.mem.exits)
    × (s.mem.signals + tally is_killing s.pc 4 ≤ bit s.mem.status.canceling)
canceled_once_example = canceled_once 4 race

abbrev first : Handler
first = record { func = 40; arg = 1 }

abbrev second : Handler
second = record { func = 48; arg = 2 }

abbrev pushed : List Handler
pushed = first ∷ second ∷ []

cleanup_lifo_run :
    (pop_many (length pushed) 1 (push_all pushed (first ∷ [])) ≡ (backwards pushed, first ∷ []))
    × (pop_many (length pushed) 0 (push_all pushed (first ∷ [])) ≡ ([], first ∷ []))
    × (tb_call_cleanup_handlers (push_all pushed []) ≡ (backwards pushed, []))
cleanup_lifo_run = cleanup_lifo pushed (first ∷ [])

-- Caller 1 makes the thread asynchronous, and caller 0 cancels it and has yet to send the signal.
abbrev asked : List (ℕ × Event)
asked =
    (1, setcanceltype 0) ∷ (1, go) ∷ (1, go) ∷ (1, go) ∷ (0, cancel true) ∷ (0, go) ∷ (0, go) ∷ []

cancel-heard_example : Exits 2 (run 2 asked start)
unfolding run step
cancel-heard_example = cancel-heard 2 asked 1 (omega arith) refl refl

-- Two callers set the type: the second one's first swap fails, and it reads again.
abbrev set_twice : List (ℕ × Event)
set_twice =
    (0, setcanceltype 0)
    ∷ (1, setcanceltype 1)
    ∷ (0, go)
    ∷ (1, go)
    ∷ (0, go)
    ∷ (1, go)
    ∷ (1, go)
    ∷ (1, go)
    ∷ []

set_twice_history :
    (Old.run 2 Cancel.deferred_bit set_twice Old.start).history ≡ (0, 1) ∷ (1, 0) ∷ []
unfolding Old.run step threading_from_scratch.Cancel.Threads.turn
set_twice_history = refl

set_old-Chain_example : Chain 1 (Old.run 2 Cancel.deferred_bit set_twice Old.start).history (
    old_bit Cancel.deferred_bit
      (Old.run 2 Cancel.deferred_bit set_twice Old.start).system.mem.status)
set_old-Chain_example = set_old-Chain 2 Cancel.deferred_bit set_twice
