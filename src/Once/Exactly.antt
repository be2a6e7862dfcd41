-- ===== src/Once/Exactly.antt =====
-- tb-threads.c, lines 429-473: how often the function runs when no thread is canceled.
use threading_from_scratch.Prelude.{
  ℕ,
  ◌+◌,
  ◌≤◌,
  ◌≡◌,
  refl,
  inl,
  inr,
  Bool,
  true,
  false,
  ◌&&◌,
  not,
  ◌==◌,
  ltb,
  ltb→lt,
  Bool-cases,
  List,
  [],
  ◌∷◌,
  arith,
  Threads.{bit, tally, tally-put, tally_pos, tally-none, tally_find},
}
use native.Mathlib.Decide.{dec_lt}
use threading_from_scratch.Kernel.{Kernel, max_threads}
use threading_from_scratch.Once.{
  Once, Pc, restoring, calling, running, cleaning, returned, Event, cancel, step,
}
use threading_from_scratch.Once.Threads.{System, start, turn, run}
use threading_from_scratch.Once.Invariant.{is_executor, Inv, turn-Inv, start-Inv, mover}

-- The executor, before the call of the function and before its return.
abbrev pub is_before : Pc → Bool
is_before restoring = true
is_before calling = true
is_before _ = false

abbrev pub is_within : Pc → Bool
is_within restoring = true
is_within calling = true
is_within running = true
is_within _ = false

abbrev pub is_cleaning : Pc → Bool
is_cleaning cleaning = true
is_cleaning _ = false

abbrev pub is_cancel : Event → Bool
is_cancel cancel = true
is_cancel _ = false

-- No thread is canceled.
unfoldable pub uncanceled : List (ℕ × Event) → Bool
uncanceled [] = true
uncanceled ((i, e) ∷ xs) = not (is_cancel e) && uncanceled xs

no_executor :
    (test : Pc → Bool) (f : ℕ → Pc) (n : ℕ)
    → ((p : Pc) → test p ≡ true → is_executor p ≡ true)
    → tally is_executor f n ≡ 0
    → tally test f n ≡ 0
no_executor test f n only none = elim (dec_lt 0 (tally test f n)) [
  | yes lt ↦
      let (i, below, h) = tally_find test f n lt in
      absurd (omega (arith, tally_pos is_executor f n i below (only (f i) h)))
  | no ge ↦ omega arith
]

module _ (k : Kernel) where
  open k use {Queue}

  step-runs :
      (e : Event) (i : ℕ) (m : Once Queue) (p : Pc)
      → m.once ≤ 2
      → bit (is_executor p) ≤ bit (m.once == 1)
      → is_cancel e ≡ false
      → is_cleaning p ≡ false
      → ((step k e i m p).0.started + bit (is_before (step k e i m p).1) + bit (not (m.once == 0))
          ≡ m.started + bit (is_before p) + bit (not ((step k e i m p).0.once == 0)))
        × ((step k e i m p).0.completed
              + bit (is_within (step k e i m p).1)
              + bit (not (m.once == 0))
            ≡ m.completed + bit (is_within p) + bit (not ((step k e i m p).0.once == 0)))
        × (is_cleaning (step k e i m p).1 ≡ false)
  unfolding step
  step-runs e i m p b h c d = (ground arith, ground arith, ground arith)

  -- Each run of the function is for one change of the word from TB_ONCE_NEW.
  record Counts (n : ℕ) (s : System Queue) : Type 0 where
    calls : s.mem.started + tally is_before s.pc n ≡ bit (not (s.mem.once == 0))
    returns : s.mem.completed + tally is_within s.pc n ≡ bit (not (s.mem.once == 0))
    clean : (i : ℕ) → is_cleaning (s.pc i) ≡ false

  turn-Counts :
      (n : ℕ) (s : System Queue) (i : ℕ) (e : Event)
      → n ≤ max_threads
      → Inv k n s
      → is_cancel e ≡ false
      → Counts n s
      → Counts n (turn k n (i, e) s)
  unfolding turn
  turn-Counts n s i e few inv calm old = elim (Bool-cases (ltb i n)) [
    | inl lt ↦
        let below = ltb→lt i n lt in
        let (c, r, w) =
          step-runs e i s.mem (s.pc i) inv.small (mover k few inv e i below) calm (old.clean i) in
        let p = (step k e i s.mem (s.pc i)).1 in
        rw lt (record {
          calls = omega (arith, c, old.calls, tally-put is_before s.pc n i p below);
          returns = omega (arith, r, old.returns, tally-put is_within s.pc n i p below);
          clean = λ j. ground (arith, old.clean j, w);
        })
    | inr ge ↦ rw ge old
  ]

  run-Counts :
      (n : ℕ) (s : System Queue) (xs : List (ℕ × Event))
      → n ≤ max_threads
      → uncanceled xs ≡ true
      → Inv k n s
      → Counts n s
      → Inv k n (run k n xs s) × Counts n (run k n xs s)
  unfolding run uncanceled
  run-Counts n s [] few calm inv old = (inv, old)
  run-Counts n s ((i, e) ∷ xs) few calm inv old =
      run-Counts n (turn k n (i, e) s) xs few (ground arith) (turn-Inv k n s (i, e) few inv)
        (turn-Counts n s i e few inv (ground arith) old)

  start-Counts : (n : ℕ) → Counts n (start k)
  start-Counts n = record {
    calls = omega (arith, tally-none is_before (start k).pc n (λ i. refl));
    returns = omega (arith, tally-none is_within (start k).pc n (λ i. refl));
    clean = λ i. refl;
  }

  -- After any schedule of at most 2^31 - 1 threads in tbthread_once over one word in which no thread
  -- is canceled, the function has been called at most once, and if some thread has returned 0 it has
  -- been called exactly once and that call has returned.
  pub once_exact :
      (n : ℕ) (xs : List (ℕ × Event))
      → n ≤ max_threads
      → uncanceled xs ≡ true
      → ((run k n xs (start k)).mem.started ≤ 1)
        × ((i : ℕ)
            → (run k n xs (start k)).pc i ≡ returned
            → ((run k n xs (start k)).mem.started ≡ 1) × ((run k n xs (start k)).mem.completed ≡ 1))
  once_exact n xs few calm =
      let (inv, c) = run-Counts n (start k) xs few calm (start-Inv k n) (start-Counts n) in
      (
        ground (arith, c.calls),
        λ i h.
            let pcs = (run k n xs (start k)).pc in
            let ended : tally is_executor pcs n ≡ 0 = ground (arith, inv.executor, inv.past i) in
            let no_before = no_executor is_before pcs n (λ p e. ground arith) ended in
            let no_within = no_executor is_within pcs n (λ p e. ground arith) ended in
            (ground (arith, c.calls, inv.past i), ground (arith, c.returns, inv.past i)),
      )
