-- ===== src/Inherit/Safety.antt =====
-- tb-mutexes.c, lines 226-275: the priority-inherit mutex is exclusive, and the thread whose
-- scheduling parameters its sections change is the one that has it.
use threading_from_scratch.Prelude.{
  ℕ,
  suc,
  ◌≤◌,
  ◌<◌,
  ◌≡◌,
  ◌≢◌,
  ◌↔◌,
  Bool,
  true,
  false,
  ◌&&◌,
  ◌||◌,
  inl,
  inr,
  Bool-cases,
  List,
  arith,
  Threads.{tally_pos, tally_two, tally_find},
}
use native.Mathlib.Decide.{ℕ_discrete, dec_lt}
use threading_from_scratch.Kernel.{Kernel}
use threading_from_scratch.Futex.{Pc, holding, Event}
use threading_from_scratch.Inherit.{Place, lending, adding, releasing}
use threading_from_scratch.Inherit.Threads.{Threads, start, run}
use threading_from_scratch.Inherit.Inner.{alone}
use threading_from_scratch.Inherit.Invariant.{agree, is_owner, is_named, is_lending, Fields}
use threading_from_scratch.Inherit.Kept.{agree-holding, reached-Fields}

-- The thread is about to call tb_inherit_mutex_sched, tb_inherit_mutex_add or
-- tb_inherit_mutex_unsched.
abbrev pub is_scheduling : Place → Pc → Bool
is_scheduling lending p = true
is_scheduling (adding try) p = true
is_scheduling releasing holding = true
is_scheduling place p = false

owner-named :
    (place : Place) (p : Pc)
    → agree place p ≡ true
    → p ≢ holding
    → is_owner place ≡ true
    → is_named place ≡ true
owner-named place p f out h = ground arith

scheduling_cases :
    (place : Place) (p : Pc)
    → is_scheduling place p ≡ true
    → (is_named place && is_owner place || is_lending place) ≡ true
scheduling_cases place p h = ground arith

module _ (k : Kernel) {n : ℕ} {s : Threads k.Queue} (inv : Fields k n s) where
  pub below : (i : ℕ) → is_owner (s.place i) ≡ true → i < n
  below i h = elim (dec_lt i n) [ yes lt ↦ lt | no ge ↦ ground (arith, inv.quiet i) ]

  pub one_owner : (i j : ℕ) → is_owner (s.place i) ≡ true → is_owner (s.place j) ≡ true → i ≡ j
  one_owner i j hi hj = elim (ℕ_discrete i j) [
    | yes e ↦ e
    | no d ↦ absurd (
        omega (
          arith,
          inv.binary,
          inv.held,
          tally_two is_owner s.place n i j (below i hi) (below j hj) d hi hj,
        ))
  ]

  -- Whom line 240 lends its priority to.
  pub lending-owner :
      (i : ℕ)
      → is_lending (s.place i) ≡ true
      → (j : ℕ) × (s.mem.owner ≡ suc j) × (is_owner (s.place j) ≡ true)
  lending-owner i l =
      let (j, lt, h) = tally_find is_owner s.place n (omega (arith, inv.held, inv.lends i l)) in
      let out : s.pc j ≢ holding = λ p. ground (
        arith,
        alone k n s inv.locks i j (agree-holding k (s.place i) (s.pc i) (inv.fit i) (inr l)) p,
      ) in
      (j, inv.named j (owner-named (s.place j) (s.pc j) (inv.fit j) out h), h)

module _ (k : Kernel) (n : ℕ) (xs : List (ℕ × Event)) where
  abbrev reached : Threads k.Queue
  reached = run k n xs (start k)

  inv : Fields k n reached
  inv = reached-Fields k n xs

  -- After any schedule of any number of threads over one priority-inherit mutex, at most one thread
  -- has the mutex: two that do are one.
  pub inherit_excludes :
      (i j : ℕ) → is_owner (reached.place i) ≡ true → is_owner (reached.place j) ≡ true → i ≡ j
  inherit_excludes = one_owner k inv

  -- After any schedule of any number of threads over one priority-inherit mutex, when a thread is
  -- about to call tb_inherit_mutex_add, tb_inherit_mutex_sched or tb_inherit_mutex_unsched, which
  -- dereference `owner` of the mutex, it is not null and is the thread that has the mutex.
  pub scheduled_owner :
      (i : ℕ)
      → is_scheduling (reached.place i) (reached.pc i) ≡ true
      → (j : ℕ) × (reached.mem.owner ≡ suc j) × (is_owner (reached.place j) ≡ true)
  scheduled_owner i h = elim (Bool-cases (is_lending (reached.place i))) [
    | inl l ↦ lending-owner k inv i l
    | inr l ↦
        let own = scheduling_cases (reached.place i) (reached.pc i) h in
        (i, ground (arith, inv.named i), ground arith)
  ]

  -- After any schedule of any number of threads over one priority-inherit mutex, its word is 1
  -- exactly when some thread has the mutex, and 0 otherwise.
  pub inherit_word :
      (reached.mem.futex ≤ 1)
      × ((reached.mem.futex ≡ 1) ↔ ((i : ℕ) × (is_owner (reached.place i) ≡ true)))
  inherit_word = (
    inv.binary,
    (
      λ e. let (i, lt, h) = tally_find is_owner reached.place n (omega (arith, inv.held)) in (i, h),
      λ (i, h).
          omega
            (arith, inv.binary, inv.held, tally_pos is_owner reached.place n i (below k inv i h) h),
    ),
  )
