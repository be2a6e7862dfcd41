-- ===== src/Sched/Tests.antt =====
-- tb-sched.c: a thread that takes two priority protect mutexes and is waited for.
use threading_from_scratch.Prelude.{
  ℕ,
  ◌+◌,
  ◌%◌,
  ◌≡◌,
  refl,
  inl,
  inr,
  true,
  List,
  [],
  ◌∷◌,
  some,
  Outcome.{ok},
  arith,
}
use threading_from_scratch.Sched.{sched_info_pack, Scheduler, Thread, effective_sched}
use threading_from_scratch.Sched.Effective.{
  All, Some, Meets, requests, unpack, effective_sched-Meets,
}
use threading_from_scratch.Sched.Params.{
  tbthread_setschedparam, tbthread_getschedparam, getschedparam-setschedparam,
}
use threading_from_scratch.Sched.Kept.{Kept}
use threading_from_scratch.Sched.History.{
  Op, protect_sched, protect_unsched, inherit_add, inherit_sched, setschedparam, apply_all, Follows,
  apply_all-Follows,
}

abbrev grants_all : Scheduler
grants_all tid policy priority = ok

-- The mutexes have the ceilings 1 to 50 at SCHED_FIFO.
abbrev ceilings : ℕ → ℕ
ceilings m = sched_info_pack 1 (1 + m % 50)

abbrev main_thread : Thread
main_thread = record {
  tid = 7;
  sched_info = 0;
  user_sched_info = 0;
  protect_mutexes = [];
  inherit_mutexes = [];
}

abbrev busy_thread : Thread
busy_thread = record {
  tid = 7;
  sched_info = 0;
  user_sched_info = sched_info_pack 2 5;
  protect_mutexes = 19 ∷ 4 ∷ [];
  inherit_mutexes = record { mutex = 3; sched_info = sched_info_pack 1 20 } ∷ [];
}

main_thread-Kept : Kept ceilings main_thread
unfolding effective_sched
main_thread-Kept = record { sorted = tt; user = inl (refl, refl); waiters = tt; current = refl }

abbrev some_ops : List Op
some_ops =
    setschedparam true 2 5
    ∷ protect_sched true 4
    ∷ protect_sched true 19
    ∷ inherit_add true 3
    ∷ inherit_sched 3 (sched_info_pack 1 40)
    ∷ protect_unsched 19
    ∷ []

busy_sched : effective_sched ceilings busy_thread ≡ (1, 20)
unfolding effective_sched
busy_sched = refl

ops_sched : (apply_all grants_all ceilings some_ops main_thread).sched_info ≡ sched_info_pack 1 40
unfolding apply_all effective_sched
ops_sched = refl

effective_sched-Meets_run :
    All (Meets (effective_sched ceilings busy_thread)) (requests ceilings busy_thread)
    × Some (λ x. effective_sched ceilings busy_thread ≡ unpack x) (requests ceilings busy_thread)
effective_sched-Meets_run = effective_sched-Meets ceilings busy_thread

apply_all-Follows_example : Follows ceilings (apply_all grants_all ceilings some_ops main_thread)
apply_all-Follows_example =
    apply_all-Follows grants_all ceilings some_ops main_thread (λ tid policy priority s. refl)
      (λ m. ground arith)
      (
        inr (inr refl, omega arith, omega arith),
        (tt, (tt, (tt, (inr (inl refl, omega arith, omega arith), (tt, tt))))),
      )
      main_thread-Kept

getschedparam-setschedparam_run :
    let r = tbthread_setschedparam grants_all ceilings true 1 30 main_thread in
    (r.1 ≡ ok) × (tbthread_getschedparam true r.0 ≡ some (1, 30))
getschedparam-setschedparam_run =
    getschedparam-setschedparam grants_all ceilings 1 30 main_thread refl refl refl refl refl
