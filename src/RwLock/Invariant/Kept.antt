-- ===== src/RwLock/Invariant/Kept.antt =====
-- tb-rwlock.c: every schedule of fewer than 2^32 events keeps what is known of the sleepers.
use threading_from_scratch.Prelude.{
  ℕ,
  ◌+◌,
  ◌^◌,
  ◌≤◌,
  ◌<◌,
  ◌≡◌,
  refl,
  ◌⊎◌,
  inl,
  inr,
  Bool,
  true,
  false,
  ltb,
  ltb→lt,
  Bool-cases,
  List,
  [],
  ◌∷◌,
  length,
  arith,
  ap,
  Threads.{put, tally_pos},
}
use native.Mathlib.Decide.{dec_lt, ℕ_discrete}
use threading_from_scratch.Kernel.{Kernel, max_threads, wake_one, wake_every}
use threading_from_scratch.RwLock.{
  RwLock, Pc, idle, rd_wait, rd_kernel, wr_loop, wr_wait, wr_kernel, Event, step, may_read,
}
use threading_from_scratch.RwLock.Threads.{System, start, turn, run}
use threading_from_scratch.RwLock.Invariant.Fields.{
  is_queued, Counts, Before, mover, turn-Counts, start-Counts, step-Counts,
}
use threading_from_scratch.RwLock.Invariant.Futexes.{
  is_restless, Restless, Sleep, step-rd_futex, step-wr_futex, step-rd_wait, step-wr_wait,
  step-rd_sleeper, step-rd_sleeper_self, step-wr_sleeper, step-wr_sleeper_self, step-free,
}

-- A queued writer that does not sleep has not seen a futex that has just moved on.
stale :
    (f : ℕ) (p : Pc)
    → is_queued p ≡ true
    → ((st : ℕ) → p ≡ wr_wait st → st ≤ f)
    → is_restless (f + 1) false p ≡ true
stale f (wr_loop queued) q old = q
stale f (wr_wait st) q old = ground (arith, old st refl)
stale f wr_kernel q old = refl
stale f p q old = cc

stays :
    (f : ℕ) {f' : ℕ} (asleep asleep' : Bool) (p : Pc)
    → f' ≡ f
    → (asleep' ≡ true → asleep ≡ true)
    → is_restless f asleep p ≡ true
    → is_restless f' asleep' p ≡ true
stays f asleep asleep' p e old h = ground (arith, old)

-- Restless threads stay so where the mover does and nobody else falls asleep.
stays_put :
    (pc : ℕ → Pc) (i u : ℕ) (p' : Pc) (f : ℕ) {f' : ℕ} (asleep asleep' : ℕ → Bool)
    → f' ≡ f
    → (asleep' u ≡ true → (i ≡ u) ⊎ (asleep u ≡ true))
    → (is_restless f (asleep i) (pc i) ≡ false) ⊎ (is_restless f' (asleep' i) p' ≡ true)
    → is_restless f (asleep u) (pc u) ≡ true
    → is_restless f' (asleep' u) (put pc i p' u) ≡ true
stays_put pc i u p' f asleep asleep' e old mine h = elim (ℕ_discrete i u) [
  | yes same ↦ rw (← same) (elim mine [
    | inl no_more ↦ cc (ap (λ v. is_restless f (asleep v) (pc v)) same)
    | inr still ↦ ground (arith, still)
  ])
  | no other ↦
      ground (arith, stays f (asleep u) (asleep' u) (pc u) e (λ a. ground (arith, old a)) h)
]

module _ (k : Kernel) {n t : ℕ} {s : System k.Queue} (c : Counts k n s) (inv : Sleep k n t s)
    (fits : t + 1 < 2 ^ 32) (e : Event) (i : ℕ) (lt : i < n) where
  open k use {Queue, sleeping, wake}
  open inv use {bounds, rd_behind, wr_behind, rd_fresh, rd_asleep, wr_asleep, wr_live}

  abbrev mem' : RwLock Queue
  mem' = (step k e i s.mem (s.pc i)).0

  abbrev p' : Pc
  p' = (step k e i s.mem (s.pc i)).1

  abbrev pc' : ℕ → Pc
  pc' = put s.pc i p'

  b : Before k n s.mem (s.pc i)
  b = mover k c e i lt

  rd_moves :
      ((mem'.rd_futex ≡ s.mem.rd_futex) × (may_read s.mem ≡ false → may_read mem' ≡ false))
      ⊎ ((mem'.rd_futex ≡ s.mem.rd_futex + 1) × (mem'.rd_queue ≡ wake wake_every s.mem.rd_queue))
  rd_moves = step-rd_futex k e i s.mem (s.pc i) n t b fits bounds.0 bounds.1

  wr_moves :
      (mem'.wr_futex ≡ s.mem.wr_futex)
      ⊎ ((mem'.wr_futex ≡ s.mem.wr_futex + 1)
          × (mem'.wr_queue ≡ wake wake_one s.mem.wr_queue)
          × (p' ≡ idle))
  wr_moves = step-wr_futex k e i s.mem (s.pc i) n t b fits bounds.0 bounds.1

  rd_wait_kept :
      (j st : ℕ)
      → pc' j ≡ rd_wait st
      → (st ≤ mem'.rd_futex) × (mem'.rd_futex ≡ st → may_read mem' ≡ false)
  rd_wait_kept j st h = ground (
    arith,
    rd_moves,
    rd_behind j st,
    rd_fresh j st,
    step-rd_wait k e i s.mem (s.pc i) n t b fits bounds.0 bounds.1 st,
  )

  wr_behind_kept : (j st : ℕ) → pc' j ≡ wr_wait st → st ≤ mem'.wr_futex
  wr_behind_kept j st h = ground (
    arith,
    wr_moves,
    wr_behind j st,
    step-wr_wait k e i s.mem (s.pc i) n t b fits bounds.0 bounds.1 st,
  )

  all_woken : (j : ℕ) → sleeping (wake wake_every s.mem.rd_queue) j ≡ false
  all_woken = k.wake_all wake_every n s.mem.rd_queue c.few (λ u h. elim (dec_lt u n) [
    | yes below ↦ below
    | no above ↦ absurd (ground (arith, c.quiet u, rd_asleep u h))
  ])

  rd_asleep_kept :
      (j : ℕ) → sleeping mem'.rd_queue j ≡ true → (pc' j ≡ rd_kernel) × (may_read mem' ≡ false)
  rd_asleep_kept j h = ground (
    arith,
    rd_moves,
    rd_asleep j,
    all_woken j,
    step-rd_sleeper k e i s.mem (s.pc i) n t b fits bounds.0 bounds.1 j,
    step-rd_sleeper_self k e i s.mem (s.pc i) n t b fits bounds.0 bounds.1 (rd_asleep i)
        (rd_fresh i),
  )

  wr_asleep_kept : (j : ℕ) → sleeping mem'.wr_queue j ≡ true → pc' j ≡ wr_kernel
  wr_asleep_kept j h = ground (
    arith,
    wr_asleep j,
    step-wr_sleeper k e i s.mem (s.pc i) n t b fits bounds.0 bounds.1 j,
    step-wr_sleeper_self k e i s.mem (s.pc i) n t b fits bounds.0 bounds.1 (wr_asleep i),
  )

  -- The queued writers after an unlock that woke one of them, if one slept.
  woken_Restless :
      is_queued (s.pc i) ≡ false
      → mem'.wr_futex ≡ s.mem.wr_futex + 1
      → mem'.wr_queue ≡ wake wake_one s.mem.wr_queue
      → (j : ℕ) → is_queued (s.pc j) ≡ true
      → (u : ℕ) × Restless k mem' pc' u
  woken_Restless me f q j h = elim (Bool-cases (sleeping mem'.wr_queue j)) [
    | inl asleep ↦
        let before = k.wake_old wake_one j s.mem.wr_queue (rw q at asleep) in
        let (u, old, new) = k.wake_some wake_one j s.mem.wr_queue (omega arith) before in
        (u, ground (arith, wr_asleep u old))
    | inr awake ↦ (j, ground (arith, stale s.mem.wr_futex (s.pc j) h (wr_behind j)))
  ]

  wr_live_kept :
      mem'.writer ≡ 0
      → mem'.readers ≡ 0
      → (j : ℕ) → is_queued (pc' j) ≡ true
      → (u : ℕ) × Restless k mem' pc' u
  wr_live_kept w r j h = elim (step-free k e i s.mem (s.pc i) n t b fits bounds.0 bounds.1 w r) [
    | inl (w0, r0, f, same, mine) ↦
        let (u, before) = wr_live w0 r0 j (ground arith) in
        (
          u,
          stays_put s.pc i u p' s.mem.wr_futex (sleeping s.mem.wr_queue) (sleeping mem'.wr_queue) f
              (step-wr_sleeper k e i s.mem (s.pc i) n t b fits bounds.0 bounds.1 u) mine before,
        )
    | inr (inl (me, gone, f, q)) ↦ woken_Restless me f q j (ground arith)
    | inr (inr (gone, none_queued)) ↦
        let after = step-Counts k c e i lt in
        let below : j < n = elim (dec_lt j n) [
          | yes below ↦ below
          | no above ↦ absurd (ground (arith, after.quiet j))
        ] in
        absurd (omega (arith, after.queued, none_queued, tally_pos is_queued pc' n j below h))
  ]

  step-Sleep : Sleep k n (t + 1) (record { mem = mem'; pc = pc' })
  step-Sleep = record {
    bounds = ground (arith, rd_moves, wr_moves, bounds);
    rd_behind = λ j st h. (rd_wait_kept j st h).0;
    wr_behind = wr_behind_kept;
    rd_fresh = λ j st h. (rd_wait_kept j st h).1;
    rd_asleep = rd_asleep_kept;
    wr_asleep = wr_asleep_kept;
    wr_live = wr_live_kept;
  }

module _ (k : Kernel) where
  open k use {Queue}

  Sleep_mono : {n t u : ℕ} {s : System Queue} → t ≤ u → Sleep k n t s → Sleep k n u s
  Sleep_mono le inv = record {
    bounds = omega (arith, inv.bounds);
    rd_behind = inv.rd_behind;
    wr_behind = inv.wr_behind;
    rd_fresh = inv.rd_fresh;
    rd_asleep = inv.rd_asleep;
    wr_asleep = inv.wr_asleep;
    wr_live = inv.wr_live;
  }

  pub turn-Sleep :
      (n t : ℕ) (s : System Queue) (x : ℕ × Event)
      → t + 1 < 2 ^ 32
      → Counts k n s
      → Sleep k n t s
      → Sleep k n (t + 1) (turn k n x s)
  unfolding turn
  turn-Sleep n t s (i, e) fits c inv = elim (Bool-cases (ltb i n)) [
    | inl lt ↦ rw lt (step-Sleep k c inv fits e i (ltb→lt i n lt))
    | inr ge ↦ rw ge (Sleep_mono (omega arith) inv)
  ]

  start-Sleep : (n : ℕ) → Sleep k n 0 (start k)
  start-Sleep n = record {
    bounds = omega arith;
    rd_behind = λ i st h. cc;
    wr_behind = λ i st h. cc;
    rd_fresh = λ i st h. cc;
    rd_asleep = λ i h. cc (k.sleeping-nobody i);
    wr_asleep = λ i h. cc (k.sleeping-nobody i);
    wr_live = λ w r j h. cc;
  }

  run-Sleep :
      (n t : ℕ) (s : System Queue) (xs : List (ℕ × Event))
      → t + length xs < 2 ^ 32
      → Counts k n s
      → Sleep k n t s
      → Sleep k n (t + length xs) (run k n xs s)
  unfolding run
  run-Sleep n t s [] fits c inv = Sleep_mono (omega arith) inv
  run-Sleep n t s (x ∷ xs) fits c inv = Sleep_mono (omega arith) (
      run-Sleep n (t + 1) (turn k n x s) xs (omega arith) (turn-Counts k n s x c)
        (turn-Sleep n t s x (omega arith) c inv))

  pub reached-Sleep :
      (n : ℕ) (xs : List (ℕ × Event))
      → n ≤ max_threads
      → length xs < 2 ^ 32
      → Sleep k n (length xs) (run k n xs (start k))
  reached-Sleep n xs few short =
      Sleep_mono (omega arith)
        (run-Sleep n 0 (start k) xs (omega arith) (start-Counts k n few) (start-Sleep n))
