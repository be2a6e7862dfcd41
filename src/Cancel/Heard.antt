-- ===== src/Cancel/Heard.antt =====
-- tb-cancel.c: a request that may be served at once is not forgotten.
use threading_from_scratch.Prelude.{
  ℕ,
  ◌≤◌,
  ◌<◌,
  ◌≡◌,
  refl,
  ◌⊎◌,
  inl,
  inr,
  Bool,
  true,
  false,
  not,
  ◌&&◌,
  ltb,
  Bool-cases,
  ltb→lt,
  List,
  [],
  ◌∷◌,
  length,
  arith,
  Threads.{bit},
}
use threading_from_scratch.Cancel.{
  Status, Target, Pc, idle, setting_read, setting_swap, testing_read, testing_swap, killing, same,
  Event, go, handler, step,
}
use threading_from_scratch.Cancel.Threads.{System, start, turn, run}

-- The thread has been asked to end, may be ended anywhere, and has not begun to.
abbrev pub is_due : Status → Bool
is_due s = s.enabled && not s.deferred && s.canceling && not s.canceled

-- A caller that is about to send the signal or to test the status.
abbrev pub is_testing : Pc → Bool
is_testing testing_read = true
is_testing (testing_swap val) = true
is_testing killing = true
is_testing _ = false

-- A state or type that is set is 0 or 1.
abbrev sets_bit : Pc → Bool
sets_bit (setting_read bit value) = ltb value 2
sets_bit (setting_swap bit value val) = ltb value 2
sets_bit _ = true

-- No caller makes a new call.
abbrev pub goes_on : List Event → Bool
goes_on [] = true
goes_on (go ∷ es) = goes_on es
goes_on (handler true ∷ es) = goes_on es
goes_on (e ∷ es) = false

abbrev pub events_of : ℕ → List Event → List (ℕ × Event)
events_of j [] = []
events_of j (e ∷ es) = (j, e) ∷ events_of j es

step-sets_bit :
    (e : Event) (m : Target) (p : Pc) → sets_bit p ≡ true → sets_bit (step e m p).1 ≡ true
unfolding step
step-sets_bit e m p h = ground arith

step-due :
    (e : Event) (m : Target) (p : Pc)
    → sets_bit p ≡ true
    → is_due (step e m p).0.status ≡ true
    → (0 < (step e m p).0.pending)
      ⊎ (is_testing (step e m p).1 ≡ true)
      ⊎ ((is_due m.status ≡ true) × (is_testing p ≡ false) × (m.pending ≡ 0))
unfolding step
step-due e m p h due = ground arith

module _ (n : ℕ) where
  record Inv (s : System) : Type 0 where
    bits : (i : ℕ) → sets_bit (s.pc i) ≡ true
    quiet : (i : ℕ) → n ≤ i → s.pc i ≡ idle
    heard :
        is_due s.mem.status ≡ true → (0 < s.mem.pending) ⊎ ((j : ℕ) × (is_testing (s.pc j) ≡ true))

  start-Inv : Inv start
  start-Inv = record { bits = λ i. refl; quiet = λ i ge. refl; heard = λ due. ground arith }

  turn-Inv : (x : ℕ × Event) (s : System) → Inv s → Inv (turn n x s)
  unfolding turn
  turn-Inv (i, e) s inv = elim (Bool-cases (ltb i n)) [
    | inr outside ↦ rw outside inv
    | inl inside ↦ rw inside (record {
      bits = λ j. ground (arith, inv.bits j, step-sets_bit e s.mem (s.pc i) (inv.bits i));
      quiet = λ j ge. ground (arith, inv.quiet j, ltb→lt i n inside);
      heard = λ due. elim (step-due e s.mem (s.pc i) (inv.bits i) due) [
        | inl sent ↦ inl sent
        | inr (inl tests) ↦ inr (i, ground arith)
        | inr (inr (before, other, none)) ↦ elim (inv.heard before) [
          | inl sent ↦ absurd (omega arith)
          | inr (j, tests) ↦ inr (j, ground arith)
        ]
      ];
    })
  ]

  run-Inv : (xs : List (ℕ × Event)) (s : System) → Inv s → Inv (run n xs s)
  unfolding run
  run-Inv [] s inv = inv
  run-Inv (x ∷ xs) s inv = run-Inv xs (turn n x s) (turn-Inv x s inv)

  -- With at most four more events of one caller, each its next step or the signal handler for a signal
  -- that was sent, the thread has gone to tbthread_exit.
  abbrev pub Exits : System → Type 0
  Exits s =
      (j : ℕ) × (es : List Event) × (j < n)
      × (length es ≤ 4)
      × (goes_on es ≡ true)
      × (s.mem.exits < (run n (events_of j es) s).mem.exits)

  testing_read-Exits :
      (s : System) (j : ℕ)
      → j < n
      → is_due s.mem.status ≡ true
      → s.pc j ≡ testing_read
      → s.mem.exits < (run n ((j, go) ∷ (j, go) ∷ []) s).mem.exits
  unfolding run turn step
  testing_read-Exits s j lt due at = ground arith

  handled-Exits :
      (s : System) (j : ℕ)
      → j < n
      → is_due s.mem.status ≡ true
      → s.pc j ≡ idle
      → 0 < s.mem.pending
      → s.mem.exits < (run n ((j, handler true) ∷ (j, go) ∷ (j, go) ∷ []) s).mem.exits
  unfolding run turn step
  handled-Exits s j lt due at sent = ground arith

  testing-Exits :
      (s : System) (j : ℕ) (p : Pc)
      → j < n
      → is_due s.mem.status ≡ true
      → s.pc j ≡ p
      → is_testing p ≡ true
      → Exits s
  unfolding run turn step
  testing-Exits s j testing_read lt due at tests =
      (j, go ∷ go ∷ [], lt, omega arith, refl, testing_read-Exits s j lt due at)
  testing-Exits s j (testing_swap val) lt due at tests = elim (Bool-cases (same s.mem.status val)) [
    | inl swaps ↦ (j, go ∷ [], lt, omega arith, refl, ground arith)
    | inr stale ↦ (
      j,
      go ∷ go ∷ go ∷ [],
      lt,
      omega arith,
      refl,
      ground (arith, testing_read-Exits (turn n (j, go) s) j lt (ground arith) (ground arith)),
    )
  ]
  testing-Exits s j killing lt due at tests = (
    j,
    go ∷ handler true ∷ go ∷ go ∷ [],
    lt,
    omega arith,
    refl,
    ground
        (arith, handled-Exits (turn n (j, go) s) j lt (ground arith) (ground arith) (ground arith)),
  )
  testing-Exits s j idle lt due at tests = ground arith
  testing-Exits s j _ lt due at tests = ground arith

  -- After any schedule of any number of callers of tbthread_cancel, tbthread_testcancel, the setters
  -- and the signal handler over one thread, one of them outside: if cancelation is asked for, enabled
  -- and asynchronous, and the thread has not yet gone to tbthread_exit for it, then some caller makes it
  -- do so with at most four more events, of which each is a step in the call that the caller is in or
  -- the signal handler for the signal of a tbthread_cancel, and none a new call.
  pub cancel-heard :
      (xs : List (ℕ × Event)) (i : ℕ)
      → i < n
      → (run n xs start).pc i ≡ idle
      → is_due (run n xs start).mem.status ≡ true
      → Exits (run n xs start)
  cancel-heard xs i lt outside due =
      let inv = run-Inv xs start start-Inv in
      elim (inv.heard due) [
        | inl sent ↦ (
          i,
          handler true ∷ go ∷ go ∷ [],
          lt,
          omega arith,
          refl,
          handled-Exits (run n xs start) i lt due outside sent,
        )
        | inr (j, tests) ↦
            testing-Exits (run n xs start) j ((run n xs start).pc j) (ground (arith, inv.quiet j))
              due refl tests
      ]
