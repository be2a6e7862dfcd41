-- ===== src/Descriptors/Actions.antt =====
-- tb-threads.c, lines 120-409: any number of threads that create, detach, join and exit, an action at a
-- time. A tbthread_join is two actions, of which the second is owed after the first; so is the
-- tbthread_exit of a detached thread.
use threading_from_scratch.Prelude.{
  ℕ,
  ◌==◌,
  Bool,
  true,
  false,
  not,
  ◌&&◌,
  if◌then◌else◌,
  Option,
  none,
  some,
  List,
  [],
  ◌∷◌,
  ◌++◌,
  Threads.{put},
  Outcome.{Outcome, ok, err},
}
use threading_from_scratch.LinkedList.Links.{has}
use threading_from_scratch.Descriptors.{
  State, Run, faults, blocks, returns, rm_first, WaitEnd, tbthread_detach, join_check, join_finish,
  exit_section, exit_rest,
}
use threading_from_scratch.Descriptors.Create.{ThreadAttr, Answers, Creation, tbthread_create}

pub data Action : Type 0 where
  create : Answers → ThreadAttr → (fn arg self : ℕ) → Action
  detach : (d : ℕ) → Action
  begin_join : (self d : ℕ) → Action
  end_join : (d : ℕ) → List WaitEnd → Action
  exits : (d retval : ℕ) → Action
  ends_exit : (d : ℕ) → Action

-- The descriptors whose joiner has yet to end, those of the detached threads that are behind line 135
-- of tbthread_exit, and the local variable `stack` of these.
pub record Actors : Type 0 where
  pub state : State
  pub owed : List ℕ
  pub leaving : List ℕ
  pub stack_of : ℕ → ℕ

abbrev pub is_some : Option ℕ → Bool
is_some none = false
is_some (some d) = true

abbrev pub is_ok : Outcome → Bool
is_ok ok = true
is_ok (err e) = false

-- malloc gives memory that is not in use.
abbrev pub is_new : State → Option ℕ → Bool
is_new s none = true
is_new s (some d) = not (has d (s.used ++ s.free))

abbrev pub claim : ℕ → State × Outcome → Actors → Actors
claim d (s, ok) x = record x { state = s; owed = d ∷ x.owed }
claim d (s, err e) x = record x { state = s }

abbrev pub after_create : Actors → Creation → Run Actors
after_create x (returns (s, d, r)) = returns (record x { state = s })
after_create x faults = faults
after_create x blocks = blocks

-- A join that waits for good leaves the state as it is.
abbrev pub finished : ℕ → Actors → Run (State × ℕ) → Run Actors
finished d x (returns (s, v)) = returns (record x { state = s; owed = rm_first d x.owed })
finished d x faults = faults
finished d x blocks = returns x

abbrev pub after_exit : Actors → Run State → Run Actors
after_exit x (returns s) = returns (record x { state = s })
after_exit x faults = faults
after_exit x blocks = blocks

abbrev pub begin_exit : (d stack : ℕ) → State × Bool → Actors → Run Actors
begin_exit d stack (s, true) x =
    returns (record x { state = s; leaving = d ∷ x.leaving; stack_of = put x.stack_of d stack })
begin_exit d stack (s, false) x = after_exit x (exit_rest false d stack s)

-- One action; one that cannot occur changes nothing.
unfoldable pub act : Action → Actors → Run Actors
unfolding tbthread_create tbthread_detach join_check join_finish exit_section exit_rest
act (create w a fn arg self) x =
    if is_new x.state w.fresh
    then after_create x (tbthread_create w a fn arg self x.state)
    else returns x
act (detach d) x = returns (record x { state = (tbthread_detach d x.state).0 })
act (begin_join self d) x = returns (claim d (join_check self d x.state) x)
act (end_join d ws) x = if has d x.owed then finished d x (join_finish d ws x.state) else returns x
act (exits d v) x = begin_exit d (x.state.desc d).stack (exit_section d v x.state) x
act (ends_exit d) x =
    if has d x.leaving
    then after_exit (record x { leaving = rm_first d x.leaving })
        (exit_rest true d (x.stack_of d) x.state)
    else returns x

abbrev pub and_then : Run Actors → (Actors → Run Actors) → Run Actors
and_then (returns x) f = f x
and_then faults f = faults
and_then blocks f = blocks

unfoldable pub acts : List Action → Actors → Run Actors
unfolding act
acts [] x = returns x
acts (a ∷ rest) x = and_then (act a x) (acts rest)

-- malloc gives a descriptor, mprotect succeeds, a thread is not the null pointer, a thread that exits
-- was made by tbthread_create, and no join begins of a detached thread between the two parts of its
-- exit.
unfoldable pub is_granted : Action → Actors → Bool
is_granted (create w a fn arg self) x = is_some w.fresh && is_ok w.protect
is_granted (begin_join self d) x = not (self == 0) && not (has d x.leaving)
is_granted (exits d v) x = has d x.state.used
is_granted a x = true

abbrev pub after : (Actors → Bool) → Run Actors → Bool
after p (returns x) = p x
after p faults = true
after p blocks = true

unfoldable pub all_granted : List Action → Actors → Bool
unfolding is_granted act
all_granted [] x = true
all_granted (a ∷ rest) x = is_granted a x && after (all_granted rest) (act a x)

-- No descriptors, and nobody at work on one.
abbrev pub no_actors : State → Actors
no_actors s = record { state = s; owed = []; leaving = []; stack_of = λ d. 0 }
