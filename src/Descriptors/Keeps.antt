-- ===== src/Descriptors/Keeps.antt =====
-- tb-threads.c, lines 178-327: what tbthread_create does to the lists.
use threading_from_scratch.Prelude.{
  ℕ,
  ◌+◌,
  ◌≤◌,
  ◌≡◌,
  ◌≢◌,
  refl,
  subst,
  inl,
  inr,
  true,
  ◌==◌,
  Bool-cases,
  Option,
  none,
  some,
  List,
  [],
  ◌∷◌,
  arith,
  Outcome.{Errno, Outcome, ok, err},
}
use threading_from_scratch.LinkedList.Links.{has, has-append}
use threading_from_scratch.Sched.{Thread}
use threading_from_scratch.Descriptors.{
  State, Run, faults, blocks, returns, rm_first, add_used, WaitEnd, wait_for_thread,
  next_descriptor, get_descriptor,
}
use threading_from_scratch.Descriptors.Create.{
  ThreadAttr, Answers, Answer, gives, refuses, Creation, with_error, create_error, start_or_exit,
  spawn, with_descriptor, with_stack, tbthread_create,
}
use threading_from_scratch.Descriptors.Actions.{is_new}
use threading_from_scratch.Descriptors.Claims.{
  times, times-append, times-one, has-times, Inv, Safe, change-Inv, stacks-Inv, release-Inv,
}

module _ (leaving owed : List ℕ) where
  -- What is left of a run satisfies the invariant.
  abbrev pub Keeps : Creation → Type 0
  Keeps r = Safe (λ (s, d, o). Inv leaving (s, owed)) r

  with_error-Keeps :
      (d : ℕ) (e : Errno) (r : Run State)
      → Safe (λ s. Inv leaving (s, owed)) r
      → Keeps (with_error d e r)
  with_error-Keeps d e (returns s) h = h
  with_error-Keeps d e blocks h = h
  with_error-Keeps d e faults h = h

  create_error-Keeps :
      (stack d : ℕ) (e : Errno) (s : State)
      → Inv leaving (s, owed)
      → has d s.used ≡ true
      → times d owed + times d leaving ≡ 0
      → Keeps (create_error stack d e s)
  unfolding create_error
  create_error-Keeps stack d e s inv used idle =
      with_error-Keeps d e _ (release-Inv (stacks-Inv inv (rm_first stack s.stacks)) d used idle)

  start_or_exit-Keeps :
      (w : Answers) (stack d tid : ℕ) (r : Thread × Outcome) (s : State)
      → Inv leaving (s, owed)
      → has d s.used ≡ true
      → times d owed + times d leaving ≡ 0
      → Keeps (start_or_exit w stack d tid r s)
  unfolding start_or_exit
  start_or_exit-Keeps w stack d tid (t, ok) s inv used idle = change-Inv inv d _ idle
  start_or_exit-Keeps w stack d tid (t, err e) s inv used idle =
      elim (Bool-cases (wait_for_thread tid w.exit_waits)) [
        | inl ends ↦ rw ends (create_error-Keeps stack d e _ (change-Inv inv d _ idle) used idle)
        | inr goes_on ↦ rw goes_on tt
      ]

  spawn-Keeps :
      (w : Answers) (a : ThreadAttr) (stack d : ℕ) (c : Answer) (s : State)
      → Inv leaving (s, owed)
      → has d s.used ≡ true
      → times d owed + times d leaving ≡ 0
      → Keeps (spawn w a stack d c s)
  unfolding spawn
  spawn-Keeps w a stack d (refuses e) s inv used idle = create_error-Keeps stack d e s inv used idle
  spawn-Keeps w a stack d (gives tid) s inv used idle =
      elim (Bool-cases (a.sched.sched_inherit == 0)) [
        | inl explicit ↦
            rw explicit (start_or_exit-Keeps w stack d tid _ _ (change-Inv inv d _ idle) used idle)
        | inr inherits ↦ rw inherits (change-Inv inv d _ idle)
      ]

  add_used-Inv :
      (d : ℕ) (s : State)
      → Inv leaving (s, owed)
      → times d s.used + times d s.free ≡ 0
      → Inv leaving (add_used d s, owed)
        × (has d (add_used d s).used ≡ true)
        × (times d owed + times d leaving ≡ 0)
  add_used-Inv d s inv new = (
    record {
      unique =
          λ e. ground (arith, inv.unique e, times-append e s.used (d ∷ []), times-one e d, new);
      owed_used = λ e. ground (arith, inv.owed_used e, times-append e s.used (d ∷ []));
      claimed = inv.claimed;
      left = inv.left;
    },
    ground (arith, has-append d s.used (d ∷ [])),
    ground (arith, inv.owed_used d),
  )

  abbrev pub Got : Run (ℕ × State) → Type 0
  Got r =
      Safe
        (λ (d, s).
          Inv leaving (s, owed) × (has d s.used ≡ true) × (times d owed + times d leaving ≡ 0))
        r

  -- A descriptor that is taken from the free list is in neither list.
  pop-Inv :
      (d : ℕ) (ds : List ℕ) (s : State)
      → s.free ≡ d ∷ ds
      → Inv leaving (s, owed)
      → Inv leaving (record s { free = ds }, owed) × (times d s.used + times d ds ≡ 0)
  unfolding times
  pop-Inv d ds s at inv =
      let both = λ (e : ℕ). subst (λ l. times e s.used + times e l ≤ 1) at (inv.unique e) in
      (
        record {
          unique = λ e. omega (arith, both e);
          owed_used = inv.owed_used;
          claimed = inv.claimed;
          left = inv.left;
        },
        ground (arith, both d),
      )

  next-Got :
      (fresh : Option ℕ) (ws : List WaitEnd) (s : State) (free : List ℕ)
      → s.free ≡ free
      → Inv leaving (s, owed)
      → is_new s fresh ≡ true
      → fresh ≢ none
      → Got (next_descriptor fresh ws s free)
  unfolding next_descriptor
  next-Got none ws s [] at inv new some_fresh = absurd (some_fresh refl)
  next-Got (some d) ws s [] at inv new some_fresh =
      add_used-Inv d s inv
        (ground (arith, has-append d s.used s.free, has-times d s.used, has-times d s.free))
  next-Got fresh ws s (d ∷ ds) at inv new some_fresh =
      elim (Bool-cases (wait_for_thread (s.desc d).sched.tid ws)) [
        | inl ends ↦
            let (popped, absent) = pop-Inv d ds s at inv in
            rw ends (add_used-Inv d (record s { free = ds }) popped absent)
        | inr goes_on ↦ rw goes_on tt
      ]

  get-Got :
      (fresh : Option ℕ) (ws : List WaitEnd) (s : State)
      → Inv leaving (s, owed)
      → is_new s fresh ≡ true
      → fresh ≢ none
      → Got (get_descriptor fresh ws s)
  unfolding get_descriptor
  get-Got fresh ws s inv new some_fresh = next-Got fresh ws s s.free refl inv new some_fresh

  with_descriptor-Keeps :
      (w : Answers) (a : ThreadAttr) (fn arg self stack : ℕ) (r : Run (ℕ × State))
      → Got r
      → Keeps (with_descriptor w a fn arg self stack r)
  unfolding with_descriptor
  with_descriptor-Keeps w a fn arg self stack blocks got = tt
  with_descriptor-Keeps w a fn arg self stack faults got = got
  with_descriptor-Keeps w a fn arg self stack (returns (d, s)) (inv, used, free) =
      spawn-Keeps w a stack d w.clone _ (change-Inv inv d _ free) used free

  with_stack-Keeps :
      (w : Answers) (a : ThreadAttr) (fn arg self stack : ℕ) (p : Outcome) (s : State)
      → p ≡ ok
      → w.fresh ≢ none
      → is_new s w.fresh ≡ true
      → Inv leaving (s, owed)
      → Keeps (with_stack w a fn arg self stack p s)
  unfolding with_stack
  with_stack-Keeps w a fn arg self stack ok s granted some_fresh new inv =
      with_descriptor-Keeps w a fn arg self stack _
        (get-Got w.fresh w.descriptor_waits s inv new some_fresh)
  with_stack-Keeps w a fn arg self stack (err e) s granted some_fresh new inv = cc

  pub create-Keeps :
      (w : Answers) (a : ThreadAttr) (fn arg self : ℕ) (m : Answer) (s : State)
      → w.mapping ≡ m
      → w.protect ≡ ok
      → w.fresh ≢ none
      → is_new s w.fresh ≡ true
      → Inv leaving (s, owed)
      → Keeps (tbthread_create w a fn arg self s)
  unfolding tbthread_create
  create-Keeps w a fn arg self (refuses e) s at granted some_fresh new inv = rw at inv
  create-Keeps w a fn arg self (gives stack) s at granted some_fresh new inv =
      rw at (
        with_stack-Keeps w a fn arg self stack w.protect _ granted some_fresh new
          (stacks-Inv inv _))
