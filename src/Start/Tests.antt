-- ===== src/Start/Tests.antt =====
-- tb-threads.c, lines 94-115 and 292-327: runs of tbthread_create and start_thread.
use threading_from_scratch.Prelude.{
  ℕ,
  ◌≤◌,
  ◌≡◌,
  ◌≢◌,
  refl,
  Bool,
  true,
  false,
  List,
  [],
  ◌∷◌,
  ◌++◌,
  replicate,
  Outcome.{Outcome, ok, err, eperm},
}
use threading_from_scratch.Kernel.{sleepers}
use threading_from_scratch.Descriptors.Create.{start_ok}
use threading_from_scratch.Start.{
  gone, Event, creator_goes, child_goes, child_interrupted, Start, creator_number, child_number,
  is_ok, step, start, run,
}
use threading_from_scratch.Start.Meeting.{has_ended}
use threading_from_scratch.Start.Calm.{Wakes, is_gone, runs_if_set, start_is_heard}

abbrev after : Bool → Outcome → List Event → Start (List Bool)
after inherit ret es = run sleepers inherit ret 9 es (start sleepers inherit ret 9)

nine : ◌≢◌ {A = ℕ} 9 0
nine e = cc

-- The new thread sleeps.
abbrev sleeps : List Event
sleeps = replicate 3 child_goes

-- tb_set_sched fails, the thread is told to leave, and tbthread_create waits for it.
abbrev refused : List Event
refused = sleeps ++ replicate 6 creator_goes ++ replicate 4 child_goes ++ replicate 2 creator_goes

runs_if_set_example :
    (is_ok (err eperm) ≡ false → (after false (err eperm) refused).mem.calls ≡ 0)
    × ((after false (err eperm) refused).mem.calls ≡ 1
        → (after false (err eperm) refused).mem.start_status ≡ start_ok)
    × (is_ok (err eperm) ≡ true
        → has_ended (after false (err eperm) refused).child ≡ true
        → (after false (err eperm) refused).mem.calls ≡ 1)
    × ((after false (err eperm) refused).mem.calls ≤ 1)
runs_if_set_example = runs_if_set sleepers (err eperm) 9 nine refused tt

start_is_heard_run :
    (sleepers.sleeping (after false ok sleeps).mem.status_queue child_number ≡ true
      → Wakes sleepers ok 9 nine (after false ok sleeps))
    × (is_gone (after false ok sleeps).child ≡ true
        → sleepers.sleeping (after false ok sleeps).mem.tid_queue creator_number ≡ false)
start_is_heard_run = start_is_heard sleepers ok 9 nine sleeps tt

-- A FUTEX_WAIT of the new thread that ends early: the function is called although tb_set_sched fails.
runs_early : (after false (err eperm) (sleeps ++ child_interrupted ∷ child_goes ∷ [])).mem.calls ≡ 1
unfolding run step
runs_early = refl

-- The thread ends before line 303: its `tid` stays set.
tid_stays :
    ((after true ok (replicate 6 child_goes ++ creator_goes ∷ [])).child ≡ gone)
    × ((after true ok (replicate 6 child_goes ++ creator_goes ∷ [])).mem.tid ≡ 9)
unfolding run step
tid_stays = (refl, refl)
