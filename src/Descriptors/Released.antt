-- ===== src/Descriptors/Released.antt =====
-- tb-threads.c, lines 120-409: no action releases a descriptor that is not in use.
use threading_from_scratch.Prelude.{
  ℕ,
  ◌≡◌,
  ◌≢◌,
  refl,
  inl,
  inr,
  Bool,
  true,
  false,
  Bool-cases,
  Option,
  none,
  some,
  List,
  [],
  ◌∷◌,
  arith,
  if◌then◌else◌,
  Outcome.{Outcome, ok, err},
}
use threading_from_scratch.LinkedList.Links.{has}
use threading_from_scratch.Descriptors.{
  Descriptor, State, Run, faults, blocks, returns, rm_first, wait_for_thread, release_descriptor,
  join_check, join_finish, with_retval, exit_section,
}
use threading_from_scratch.Descriptors.Create.{Creation, tbthread_create}
use threading_from_scratch.Descriptors.Outcomes.{join_check-cases}
use threading_from_scratch.Descriptors.Keeps.{Keeps, create-Keeps}
use threading_from_scratch.Descriptors.Actions.{
  Action, create, detach, begin_join, end_join, exits, ends_exit, Actors, is_some, is_ok,
  is_granted, all_granted, after, is_new, claim, after_create, finished, act, and_then, acts,
  no_actors,
}
use threading_from_scratch.Descriptors.Exits.{
  Good, section-Inv, detached-Inv, begin_exit-Good, ends_exit-Good,
}
use threading_from_scratch.Descriptors.Claims.{
  times, has-times, has-times_pos, Inv, Safe, detach-Inv, end_join-Inv,
}

begin_join-Good :
    (self d : ℕ) (x : Actors)
    → self ≢ 0
    → has d x.leaving ≡ false
    → Good x
    → Good (claim d (join_check self d x.state) x)
unfolding times
begin_join-Good self d x set stays inv = elim (join_check-cases self d x.state) [
  | inl (e, refused) ↦ rw refused inv
  | inr (accepted, used, _, _, _, open_to) ↦ rw accepted (record {
    unique = inv.unique;
    owed_used = λ e. ground (
      arith,
      inv.owed_used e,
      inv.claimed d,
      has-times_pos d x.state.used,
      has-times d x.leaving stays,
    );
    claimed = λ e h. ground (arith, inv.claimed e, set);
    left = λ e h. ground (arith, inv.left e);
  })
]

finished-Safe :
    (d : ℕ) (x : Actors) (r : Run State) (v : ℕ)
    → Good x
    → Safe (λ s'. Inv x.leaving (s', rm_first d x.owed)) r
    → Safe Good (finished d x (with_retval v r))
finished-Safe d x (returns t) v inv h = h
finished-Safe d x faults v inv h = h
finished-Safe d x blocks v inv h = inv

after_create-Safe :
    (x : Actors) (r : Creation) → Keeps x.leaving x.owed r → Safe Good (after_create x r)
after_create-Safe x (returns t) h = h
after_create-Safe x faults h = h
after_create-Safe x blocks h = h

if-Safe :
    (b : Bool) (r t : Run Actors)
    → (b ≡ true → Safe Good r)
    → Safe Good t
    → Safe Good (if b then r else t)
if-Safe true r t h g = h refl
if-Safe false r t h g = g

is_ok-ok : (r : Outcome) → is_ok r ≡ true → r ≡ ok
is_ok-ok ok h = refl
is_ok-ok (err e) h = ground arith

is_some-none : (o : Option ℕ) → is_some o ≡ true → o ≢ none
is_some-none none h e = ground arith
is_some-none (some d) h e = cc

act-Good : (a : Action) (x : Actors) → is_granted a x ≡ true → Good x → Safe Good (act a x)
unfolding act is_granted join_finish
act-Good (create w a fn arg self) x granted inv =
    if-Safe (is_new x.state w.fresh) _ _
      (λ new. after_create-Safe x (tbthread_create w a fn arg self x.state) (
        create-Keeps x.leaving x.owed w a fn arg self w.mapping x.state refl
          (is_ok-ok w.protect (ground arith)) (is_some-none w.fresh (ground arith)) new inv))
      inv
act-Good (detach d) x granted inv = detach-Inv d x.state x.leaving x.owed inv
act-Good (begin_join self d) x granted inv =
    begin_join-Good self d x (ground arith) (ground arith) inv
act-Good (end_join d ws) x granted inv = elim (Bool-cases (has d x.owed)) [
  | inl owes ↦ rw owes (elim (Bool-cases (wait_for_thread (x.state.desc d).sched.tid ws)) [
    | inl ends ↦
        rw ends (finished-Safe d x (release_descriptor d x.state) _ inv (end_join-Inv inv d owes))
    | inr goes_on ↦ rw goes_on inv
  ])
  | inr other ↦ rw other inv
]
act-Good (exits d v) x granted inv =
    begin_exit-Good d (x.state.desc d).stack (exit_section d v x.state).0
      (exit_section d v x.state).1 x (section-Inv d v x.state x.leaving x.owed inv)
      (λ detached. detached-Inv d v x.state x.leaving x.owed granted detached inv)
act-Good (ends_exit d) x granted inv =
    if-Safe (has d x.leaving) _ _ (λ owes. ends_exit-Good d x owes inv) inv

and_then-Safe :
    (r : Run Actors) (f : Actors → Run Actors) (p : Actors → Bool)
    → Safe Good r
    → after p r ≡ true
    → ((x : Actors) → p x ≡ true → Good x → Safe Good (f x))
    → Safe Good (and_then r f)
and_then-Safe (returns x) f p h q next = next x q h
and_then-Safe faults f p h q next = h
and_then-Safe blocks f p h q next = h

acts-Good :
    (as' : List Action) (x : Actors) → all_granted as' x ≡ true → Good x → Safe Good (acts as' x)
unfolding acts all_granted
acts-Good [] x granted inv = inv
acts-Good (a ∷ rest) x granted inv =
    and_then-Safe (act a x) (acts rest) (all_granted rest) (act-Good a x (ground arith) inv)
      (ground arith) (acts-Good rest)

-- After any sequence of actions from empty lists, in which malloc gives a new descriptor where one is
-- needed, mprotect succeeds, no thread is the null pointer, only threads that tbthread_create has made
-- exit, and no tbthread_join of a detached thread begins between the section and the release of its
-- tbthread_exit: no release followed a null pointer, and unless an action waits for good, no descriptor
-- is twice in the lists of used and of free descriptors; each that a joiner or an exiting thread has
-- yet to release is used, and owed by one of them only; and it can no more be detached, and one that a
-- joiner owes not be joined.
pub acts-Safe :
    (desc : ℕ → Descriptor) (as' : List Action)
    → let empty = no_actors (record { desc = desc; used = []; free = []; stacks = [] }) in
      all_granted as' empty ≡ true → Safe Good (acts as' empty)
unfolding times
acts-Safe desc as' granted = acts-Good as' _ granted (record {
  unique = λ d. omega arith;
  owed_used = λ d. omega arith;
  claimed = λ d h. absurd (omega arith);
  left = λ d h. absurd (omega arith);
})
