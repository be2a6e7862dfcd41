-- ===== src/Start/Meeting.antt =====
-- tb-threads.c, lines 292-327: tbthread_create gives the stack back when the thread is gone.
use threading_from_scratch.Prelude.{
  ℕ,
  ◌≡◌,
  ◌≢◌,
  refl,
  ◌⊎◌,
  inl,
  Bool,
  true,
  false,
  List,
  [],
  ◌∷◌,
  arith,
  Outcome.{Outcome},
}
use threading_from_scratch.Kernel.{Kernel, wake_one}
use threading_from_scratch.Start.{
  Creator, storing, awaiting, asleep, unmapping, Child, clearing, gone, Event, creator_goes,
  creator_interrupted, child_goes, child_interrupted, Start, creator_number, step, start,
}

-- The thread is past the store that clears its `tid`.
abbrev pub has_ended : Child → Bool
has_ended clearing = true
has_ended gone = true
has_ended c = false

abbrev pub is_storing : Creator → Bool
is_storing storing = true
is_storing c = false

abbrev pub is_asleep : Creator → Bool
is_asleep (asleep tid) = true
is_asleep c = false

abbrev pub is_unmapping : Creator → Bool
is_unmapping unmapping = true
is_unmapping c = false

abbrev pub Saw : ℕ → Creator → Type 0
Saw t (awaiting tid) = tid ≡ t
Saw t (asleep tid) = tid ≡ t
Saw t c = Unit

module _ (k : Kernel) (inherit : Bool) (ret : Outcome) (t : ℕ) (set : t ≢ 0) where
  open k use {Queue, sleeping}

  pub record Met (s : Start Queue) : Type 0 where
    pub word : (s.mem.tid ≡ 0) ⊎ (s.mem.tid ≡ t)
    pub saw : Saw t s.creator
    pub stored : is_storing s.creator ≡ false → s.mem.tid ≡ 0 → has_ended s.child ≡ true
    pub dozes : sleeping s.mem.tid_queue creator_number ≡ true → is_asleep s.creator ≡ true
    pub woken :
        is_asleep s.creator ≡ true
        → sleeping s.mem.tid_queue creator_number ≡ false
        → has_ended s.child ≡ true
    pub unmaps : is_unmapping s.creator ≡ true → has_ended s.child ≡ true
    pub mapped : s.mem.mapped ≡ false → has_ended s.child ≡ true

  pub step-Met : (e : Event) (s : Start Queue) → Met s → Met (step k inherit ret t e s)
  unfolding step
  step-Met creator_goes s v =
      let sleeps = k.sleeping-sleep creator_number creator_number s.mem.tid_queue in
      record {
        word = ground (arith, v.word);
        saw = ground (arith, v.word, v.stored, v.saw);
        stored = ground (arith, v.stored);
        dozes = ground (arith, sleeps, v.dozes);
        woken = ground (arith, sleeps, v.woken);
        unmaps = ground (arith, v.stored, v.woken, v.saw, v.word);
        mapped = ground (arith, v.unmaps, v.mapped);
      }
  step-Met creator_interrupted s v =
      let leaves = k.sleeping-leave creator_number creator_number s.mem.tid_queue in
      record {
        word = ground (arith, v.word);
        saw = ground (arith, v.saw);
        stored = ground (arith, v.stored);
        dozes = ground (arith, leaves, v.dozes);
        woken = ground (arith, leaves, v.woken);
        unmaps = ground (arith, v.unmaps);
        mapped = ground (arith, v.mapped);
      }
  step-Met child_goes s v =
      let wakes = k.wake_old wake_one creator_number s.mem.tid_queue in
      record {
        word = ground (arith, v.word);
        saw = v.saw;
        stored = ground (arith, v.stored, set);
        dozes = ground (arith, wakes, v.dozes);
        woken = ground (arith, wakes, v.woken);
        unmaps = ground (arith, v.unmaps);
        mapped = ground (arith, v.mapped);
      }
  step-Met child_interrupted s v = record {
    word = ground (arith, v.word);
    saw = v.saw;
    stored = ground (arith, v.stored);
    dozes = ground (arith, v.dozes);
    woken = ground (arith, v.woken);
    unmaps = ground (arith, v.unmaps);
    mapped = ground (arith, v.mapped);
  }

  pub start-Met : Met (start k inherit ret t)
  start-Met = record {
    word = inl refl;
    saw = tt;
    stored = λ e. cc;
    dozes = λ e. cc (k.sleeping-nobody creator_number);
    woken = λ e. cc;
    unmaps = λ e. cc;
    mapped = λ e. cc;
  }
