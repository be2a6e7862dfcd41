-- ===== src/Descriptors/Made.antt =====
-- tb-threads.c, lines 235-327: what tbthread_create leaves, on its success and on its failures.
use threading_from_scratch.Prelude.{
  ℕ,
  ◌+◌,
  ◌≤◌,
  ◌≡◌,
  ◌≢◌,
  refl,
  sym,
  ap,
  ◌∙◌,
  inl,
  inr,
  true,
  false,
  ◌==◌,
  Bool-cases,
  Option,
  none,
  some,
  List,
  [],
  ◌∷◌,
  ◌++◌,
  arith,
  if◌then◌else◌,
  Outcome.{Errno, Outcome, ok, err},
}
use threading_from_scratch.LinkedList.Links.{has, has-append}
use threading_from_scratch.Sched.{Thread, sched_info_pack, tb_set_sched, set_if}
use threading_from_scratch.Descriptors.{
  State, Run, faults, blocks, returns, change, rm_first, WaitEnd, wait_for_thread, next_descriptor,
  get_descriptor, release_descriptor,
}
use threading_from_scratch.Descriptors.Create.{
  ThreadAttr, Answers, Answer, gives, refuses, create_error, start_or_exit, spawn, with_descriptor,
  with_stack, tbthread_create, start_ok, map_stack,
}
use threading_from_scratch.Descriptors.Claims.{times, times-has, Safe}
use threading_from_scratch.Descriptors.Actions.{is_new}

rm_first-last : (d : ℕ) (xs : List ℕ) → has d xs ≡ false → rm_first d (xs ++ d ∷ []) ≡ xs
unfolding rm_first
rm_first-last d [] h = ground arith
rm_first-last d (x ∷ xs) h = ground (arith, rm_first-last d xs)

module _ (s : State) (a : ThreadAttr) (fn arg self : ℕ) where
  -- On success the thread is one more in use, with its function and attributes, on a new stack, and
  -- may run, TB_CANCEL_ENABLED and TB_CANCEL_DEFERRED being 1 and 2; on a failure the used descriptors and the stacks are as they were.
  abbrev pub IsMade : State × ℕ × Outcome → Type 0
  IsMade (t, d, ok) =
      (t.used ≡ s.used ++ d ∷ [])
      × (has d s.used ≡ false)
      × (t.stacks ≡ (t.desc d).stack ∷ s.stacks)
      × ((t.desc d).self ≡ d)
      × ((t.desc d).stack_size ≡ a.stack_size)
      × ((t.desc d).fn ≡ fn)
      × ((t.desc d).arg ≡ arg)
      × ((t.desc d).join_status ≡ a.joinable)
      × ((t.desc d).joiner ≡ 0)
      × ((t.desc d).cancel_status ≡ 3)
      × ((t.desc d).start_status ≡ start_ok)
      × ((t.desc d).sched.sched_info ≡ (
          if a.sched.sched_inherit == 0
          then sched_info_pack a.sched.sched_policy a.sched.sched_priority
          else (s.desc self).sched.sched_info))
      × ((u : ℕ) → u ≢ d → t.desc u ≡ s.desc u)
  IsMade (t, d, err e) = (t.used ≡ s.used) × (t.stacks ≡ s.stacks)

  -- The thread `d` is being made.
  record Making (stack d : ℕ) (t : State) : Type 0 where
    used : t.used ≡ s.used ++ d ∷ []
    new : has d s.used ≡ false
    stacks : t.stacks ≡ stack ∷ s.stacks
    stack_at : (t.desc d).stack ≡ stack
    self_at : (t.desc d).self ≡ d
    size_at : (t.desc d).stack_size ≡ a.stack_size
    fn_at : (t.desc d).fn ≡ fn
    arg_at : (t.desc d).arg ≡ arg
    status : (t.desc d).join_status ≡ a.joinable
    free_to_join : (t.desc d).joiner ≡ 0
    cancelable : (t.desc d).cancel_status ≡ 3
    others : (u : ℕ) → u ≢ d → t.desc u ≡ s.desc u

  error-IsMade :
      (stack d : ℕ) (e : Errno) (t : State)
      → Making stack d t
      → Safe IsMade (create_error stack d e t)
  unfolding create_error release_descriptor rm_first
  error-IsMade stack d e t m =
      let at : has d t.used ≡ true = ground (arith, m.used, has-append d s.used (d ∷ [])) in
      rw at (
        ap (rm_first d) m.used ∙ rm_first-last d s.used m.new,
        ap (rm_first stack) m.stacks ∙ ground arith,
      )

  change-Making :
      (stack d x : ℕ) (h : Thread) (t : State)
      → Making stack d t
      → Making stack d (change d (record (t.desc d) { start_status = x; sched = h }) t)
  change-Making stack d x h t m = record {
    used = m.used;
    new = m.new;
    stacks = m.stacks;
    stack_at = ground (arith, m.stack_at);
    self_at = ground (arith, m.self_at);
    size_at = ground (arith, m.size_at);
    fn_at = ground (arith, m.fn_at);
    arg_at = ground (arith, m.arg_at);
    status = ground (arith, m.status);
    free_to_join = ground (arith, m.free_to_join);
    cancelable = ground (arith, m.cancelable);
    others = λ u far. ground (arith, m.others u far);
  }

  Making-IsMade :
      (stack d : ℕ) (t : State)
      → Making stack d t
      → (t.desc d).start_status ≡ start_ok
      → (t.desc d).sched.sched_info ≡ (
          if a.sched.sched_inherit == 0
          then sched_info_pack a.sched.sched_policy a.sched.sched_priority
          else (s.desc self).sched.sched_info)
      → IsMade (t, d, ok)
  Making-IsMade stack d t m started info = (
    m.used,
    m.new,
    m.stacks ∙ ap (λ x. x ∷ s.stacks) (sym m.stack_at),
    m.self_at,
    m.size_at,
    m.fn_at,
    m.arg_at,
    m.status,
    m.free_to_join,
    m.cancelable,
    started,
    info,
    m.others,
  )

  start-IsMade :
      (w : Answers) (stack d tid : ℕ) (r : Outcome) (h : Thread) (t : State)
      → Making stack d t
      → a.sched.sched_inherit ≡ 0
      → Safe IsMade
          (start_or_exit w stack d tid (set_if r a.sched.sched_policy a.sched.sched_priority h) t)
  unfolding start_or_exit set_if
  start-IsMade w stack d tid ok h t m explicit =
      Making-IsMade stack d _ (change-Making stack d _ _ t m) (ground arith) (ground arith)
  start-IsMade w stack d tid (err e) h t m explicit =
      elim (Bool-cases (wait_for_thread tid w.exit_waits)) [
        | inl ends ↦ rw ends (error-IsMade stack d e _ (change-Making stack d _ _ t m))
        | inr goes_on ↦ rw goes_on tt
      ]

  spawn-IsMade :
      (w : Answers) (stack d : ℕ) (c : Answer) (t : State)
      → Making stack d t
      → (t.desc d).start_status ≡ (if a.sched.sched_inherit == 0 then 1 else 0)
      → (t.desc d).sched.sched_info
        ≡ (if a.sched.sched_inherit == 0 then 0 else (s.desc self).sched.sched_info)
      → Safe IsMade (spawn w a stack d c t)
  unfolding spawn tb_set_sched
  spawn-IsMade w stack d (refuses e) t m started info = error-IsMade stack d e t m
  spawn-IsMade w stack d (gives tid) t m started info =
      elim (Bool-cases (a.sched.sched_inherit == 0)) [
        | inl explicit ↦
            rw explicit
              (start-IsMade w stack d tid _ _ _ (change-Making stack d _ _ t m) (ground arith))
        | inr inherits ↦
            rw inherits (
              Making-IsMade stack d _ (change-Making stack d _ _ t m) (ground arith) (ground arith))
      ]

  -- What get_descriptor leaves: one more descriptor in use.
  abbrev pub IsGot : List ℕ → ℕ × State → Type 0
  IsGot xs (d, t) =
      (t.used ≡ s.used ++ d ∷ []) × (has d s.used ≡ false) × (t.stacks ≡ xs) × (t.desc ≡ s.desc)

  with_descriptor-IsMade :
      (w : Answers) (stack : ℕ) (r : Run (ℕ × State))
      → Safe (IsGot (stack ∷ s.stacks)) r
      → Safe IsMade (with_descriptor w a fn arg self stack r)
  unfolding with_descriptor
  with_descriptor-IsMade w stack faults got = got
  with_descriptor-IsMade w stack blocks got = tt
  with_descriptor-IsMade w stack (returns (d, t)) (used, new, stacks, same) =
      spawn-IsMade w stack d w.clone _
        (record {
          used = used;
          new = new;
          stacks = stacks;
          stack_at = ground arith;
          self_at = ground arith;
          size_at = ground arith;
          fn_at = ground arith;
          arg_at = ground arith;
          status = ground arith;
          free_to_join = ground arith;
          cancelable = ground arith;
          others = λ u far. ground (arith, ap (λ f. f u) same);
        })
        (ground arith) (ground (arith, ap (λ f. f self) same))

  next-IsGot :
      (fresh : Option ℕ) (ws : List WaitEnd) (xs free : List ℕ)
      → s.free ≡ free
      → ((d : ℕ) → times d s.used + times d free ≤ 1)
      → fresh ≢ none
      → is_new s fresh ≡ true
      → Safe (IsGot xs) (next_descriptor fresh ws (record s { stacks = xs }) free)
  unfolding next_descriptor times
  next-IsGot none ws xs [] at unique some_fresh new = absurd (some_fresh refl)
  next-IsGot (some d) ws xs [] at unique some_fresh new =
      (refl, ground (arith, has-append d s.used s.free), refl, refl)
  next-IsGot fresh ws xs (d ∷ ds) at unique some_fresh new =
      elim (Bool-cases (wait_for_thread (s.desc d).sched.tid ws)) [
        | inl ends ↦ rw ends (refl, ground (arith, unique d, times-has d s.used), refl, refl)
        | inr goes_on ↦ rw goes_on tt
      ]

  with_stack-IsMade :
      (w : Answers) (stack : ℕ) (p : Outcome)
      → p ≡ ok
      → ((d : ℕ) → times d s.used + times d s.free ≤ 1)
      → w.fresh ≢ none
      → is_new s w.fresh ≡ true
      → Safe IsMade (with_stack w a fn arg self stack p (map_stack stack s))
  unfolding with_stack get_descriptor
  with_stack-IsMade w stack ok granted unique some_fresh new =
      with_descriptor-IsMade w stack _
        (next-IsGot w.fresh w.descriptor_waits (stack ∷ s.stacks) s.free refl unique some_fresh new)
  with_stack-IsMade w stack (err e) granted unique some_fresh new = cc

  mapped-IsMade :
      (w : Answers) (m : Answer)
      → w.mapping ≡ m
      → ((d : ℕ) → times d s.used + times d s.free ≤ 1)
      → w.protect ≡ ok
      → w.fresh ≢ none
      → is_new s w.fresh ≡ true
      → Safe IsMade (tbthread_create w a fn arg self s)
  unfolding tbthread_create
  mapped-IsMade w (refuses e) at unique granted some_fresh new = rw at (refl, refl)
  mapped-IsMade w (gives stack) at unique granted some_fresh new =
      rw at (with_stack-IsMade w stack w.protect granted unique some_fresh new)

  -- With no descriptor twice in the lists, malloc giving a new one where one is needed, and mprotect
  -- succeeding, whatever else the kernel answers, tbthread_create follows no null pointer, and if it
  -- does not wait for good: on success the thread is the last of those in use, is new there, has a
  -- stack of its own, the stack size, the function, the argument, the join status and the scheduling
  -- that were asked for (the caller's, if it inherits), no joiner, leave to run, and cancelation enabled
  -- and deferred, and no other descriptor is changed; on a failure the descriptors in use and the
  -- stacks are as they were.
  pub create-IsMade :
      (w : Answers)
      → ((d : ℕ) → times d s.used + times d s.free ≤ 1)
      → w.protect ≡ ok
      → w.fresh ≢ none
      → is_new s w.fresh ≡ true
      → Safe IsMade (tbthread_create w a fn arg self s)
  create-IsMade w unique granted some_fresh new =
      mapped-IsMade w w.mapping refl unique granted some_fresh new
