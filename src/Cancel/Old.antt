-- ===== src/Cancel/Old.antt =====
-- tb-cancel.c, lines 147-197: the old values that tbthread_setcancelstate and tbthread_setcanceltype
-- give, by the local variable `oldbit` of each caller.
use threading_from_scratch.Prelude.{
  ℕ,
  ◌≡◌,
  refl,
  inl,
  inr,
  Bool,
  true,
  false,
  ◌&&◌,
  ◌==◌,
  if◌then◌else◌,
  ltb,
  Bool-cases,
  List,
  [],
  ◌∷◌,
  arith,
  Threads.{put},
}
use threading_from_scratch.Cancel.{
  Status, Target, Bit, enabled_bit, deferred_bit, Pc, setting_read, setting_swap, Event, go, same,
  step,
}
use threading_from_scratch.Cancel.Threads
use threading_from_scratch.Cancel.Threads.{System}

-- Lines 153-154.
abbrev pub old_bit : Bit → Status → ℕ
old_bit enabled_bit s = if s.enabled then 1 else 0
old_bit deferred_bit s = if s.deferred then 1 else 0

-- A caller's `oldbit` after its next step: it is assigned with each read of the status.
abbrev pub assign_old : Event → Target → Pc → ℕ → ℕ
assign_old go m (setting_read bit value) old = old_bit bit m.status
assign_old e m p old = old

abbrev same_kind : Bit → Bit → Bool
same_kind enabled_bit enabled_bit = true
same_kind deferred_bit deferred_bit = true
same_kind b c = false

-- Whether the next step is the swap of line 158, of this bit, and succeeds.
abbrev pub swaps : Bit → Event → Target → Pc → Bool
swaps b go m (setting_swap bit value val) = same_kind b bit && same m.status val
swaps b e m p = false

-- The value that a swap writes.
abbrev pub written : Pc → ℕ
written (setting_swap bit value val) = if value == 0 then 0 else 1
written p = 0

-- The callers with their `oldbit`, and what the calls that set the bit got and wrote, the last first.
pub record Setters : Type 0 where
  pub system : System
  pub old : ℕ → ℕ
  pub history : List (ℕ × ℕ)

abbrev pub start : Setters
start = record { system = Threads.start; old = λ _. 0; history = [] }

module _ (n : ℕ) (b : Bit) where
  unfoldable pub turn : ℕ × Event → Setters → Setters
  turn (i, e) s =
      let m = s.system.mem in
      let p = s.system.pc i in
      let old' = assign_old e m p (s.old i) in
      if ltb i n
      then record {
        system = Threads.turn n (i, e) s.system;
        old = put s.old i old';
        history = if swaps b e m p then (old', written p) ∷ s.history else s.history;
      }
      else s

  unfoldable pub run : List (ℕ × Event) → Setters → Setters
  unfolding turn
  run [] s = s
  run (x ∷ xs) s = run xs (turn x s)

-- Each call got what the one before it wrote, the first one the value at the start, and the bit is
-- what the last one wrote.
unfoldable pub Chain : ℕ → List (ℕ × ℕ) → ℕ → Type 0
Chain first [] now = now ≡ first
Chain first ((old, new) ∷ calls) now = (now ≡ new) × Chain first calls old

-- What a caller holds in `oldbit` when it swaps.
abbrev Holds : Pc → ℕ → Type 0
Holds (setting_swap bit value val) old = old ≡ old_bit bit val
Holds p old = Unit

module _ (b : Bit) (e : Event) (m : Target) (p : Pc) (old : ℕ) where
  step-Holds : Holds p old → Holds (step e m p).1 (assign_old e m p old)
  unfolding step
  step-Holds h = ground arith

  step-kept : swaps b e m p ≡ false → old_bit b (step e m p).0.status ≡ old_bit b m.status
  unfolding step
  step-kept h = ground arith

  step-swapped :
      Holds p old
      → swaps b e m p ≡ true
      → (old_bit b (step e m p).0.status ≡ written p) × (assign_old e m p old ≡ old_bit b m.status)
  unfolding step
  step-swapped h s = ground arith

module _ (n : ℕ) (b : Bit) where
  record Kept (s : Setters) : Type 0 where
    holds : (i : ℕ) → Holds (s.system.pc i) (s.old i)
    chained : Chain 1 s.history (old_bit b s.system.mem.status)

  turn-Kept : (s : Setters) (x : ℕ × Event) → Kept s → Kept (turn n b x s)
  unfolding turn Threads.turn Chain
  turn-Kept s (i, e) v = elim (Bool-cases (ltb i n)) [
    | inr ge ↦ rw ge v
    | inl lt ↦ rw lt (record {
      holds = λ j.
          ground
            (arith, v.holds j, step-Holds b e s.system.mem (s.system.pc i) (s.old i) (v.holds i));
      chained = elim (Bool-cases (swaps b e s.system.mem (s.system.pc i))) [
        | inl yes_swap ↦
            let (wrote, got) =
              step-swapped b e s.system.mem (s.system.pc i) (s.old i) (v.holds i) yes_swap in
            rw yes_swap (wrote, rw got v.chained)
        | inr no_swap ↦
            rw (no_swap, step-kept b e s.system.mem (s.system.pc i) (s.old i) no_swap) v.chained
      ];
    })
  ]

  run-Kept : (s : Setters) (xs : List (ℕ × Event)) → Kept s → Kept (run n b xs s)
  unfolding run
  run-Kept s [] v = v
  run-Kept s (x ∷ xs) v = run-Kept (turn n b x s) xs (turn-Kept s x v)

  start-Kept : Kept start
  unfolding Chain
  start-Kept = record { holds = λ i. tt; chained = by_bit b }
    where
      by_bit : (c : Bit) → old_bit c Threads.start.mem.status ≡ 1
      by_bit enabled_bit = refl
      by_bit deferred_bit = refl

  -- Over a thread that tbthread_create has made, with both bits set, after any schedule of calls of
  -- tb-cancel.c by any number of callers: the calls that set one of the two bits form a chain, in which
  -- each gives as the old value what the one before it wrote, the first one gives 1, and the bit is
  -- what the last one wrote.
  pub set_old-Chain :
      (xs : List (ℕ × Event))
      → Chain 1 (run n b xs start).history (old_bit b (run n b xs start).system.mem.status)
  set_old-Chain xs = (run-Kept start xs start-Kept).chained
