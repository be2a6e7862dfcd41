-- ===== src/Monitor/Flags.antt =====
-- tb-condvar.c, lines 29-113, with tb-mutexes.c: who has the mutex, and what the flag says.
use threading_from_scratch.Prelude.{
  ℕ,
  suc,
  ◌≡◌,
  ◌≢◌,
  refl,
  ◌⊎◌,
  ◌↔◌,
  inl,
  inr,
  Bool,
  true,
  false,
  Bool-cases,
  arith,
  Outcome.{Outcome, ok, err, einval},
}
use threading_from_scratch.Kernel.{Kernel}
use threading_from_scratch.Sched.{Scheduler}
use threading_from_scratch.Condvar
use threading_from_scratch.Condvar.{
  Cond, Locals, Pc, idle, waiting, in_kernel, woken, relocking, returned, take_mutex,
}
use threading_from_scratch.Monitor.{
  Shared, accepts, Role, Place, locking, testing, entering, in_wait, setting, announcing, unlocking,
  after_wait, Event, go, step,
}
use threading_from_scratch.Monitor.Mutexes.{IsPlain, lock_cases, unlock_frees}

abbrev pub has_mutex : Place → Bool
has_mutex testing = true
has_mutex entering = true
has_mutex setting = true
has_mutex announcing = true
has_mutex unlocking = true
has_mutex _ = false

-- Where a thread may stand in tbthread_cond_wait, by its place.
abbrev pub agree : Place → Pc → Bool
agree in_wait (waiting l) = true
agree in_wait (in_kernel l) = true
agree in_wait (woken l st) = true
agree in_wait (relocking x st) = true
agree in_wait p = false
agree place idle = true
agree place (returned st) = true
agree place p = false

abbrev pub is_relocking : Pc → Bool
is_relocking (relocking x st) = true
is_relocking p = false

module _ (k : Kernel) (sys : Scheduler) (memory : Bool) (a : ℕ) where
  open k use {Queue}

  abbrev pub owner_of : Shared Queue → ℕ
  owner_of m = (m.state.mutexes a).owner

  -- A step leaves the mutex, takes it, or gives it back.
  abbrev pub Moves : ℕ → Shared Queue → Place → Shared Queue → Place → Type 0
  Moves i m place m' place' =
      ((owner_of m' ≡ owner_of m) × (has_mutex place' ≡ has_mutex place))
      ⊎ ((owner_of m ≡ 0) × (owner_of m' ≡ suc i) × (has_mutex place' ≡ true))
      ⊎ ((owner_of m ≡ suc i) × (owner_of m' ≡ 0) × (has_mutex place' ≡ false))

  pub step-agree :
      (e : Event) (i : ℕ) (m : Shared Queue) (place : Place) (p : Pc)
      → agree place p ≡ true
      → agree (step k sys memory a e i m place p).1 (step k sys memory a e i m place p).2 ≡ true
  unfolding step Condvar.step accepts
  step-agree e i m place p f = ground arith

  entered :
      (i : ℕ) (c : Cond Queue) (p : Pc)
      → agree entering p ≡ true
      → accepts (suc a) c ≡ true
      → after_wait (Condvar.step k (Condvar.wait a ok) i c p).1 ≡ in_wait
  unfolding Condvar.step accepts
  entered i c p f same = ground arith

  refused :
      (i : ℕ) (c : Cond Queue) (p : Pc)
      → agree entering p ≡ true
      → accepts (suc a) c ≡ false
      → after_wait (Condvar.step k (Condvar.wait a (err einval)) i c p).1 ≡ unlocking
  unfolding Condvar.step accepts
  refused i c p f other = ground arith

  abbrev pub Moved : ℕ → Shared Queue → Place → Shared Queue → Place → Type 0
  Moved i m place m' place' = IsPlain (m'.state.mutexes a) × Moves i m place m' place'

  abbrev pub Steps : ℕ → Shared Queue → Event → Place → Pc → Type 0
  Steps i m e place p =
      Moved i m place (step k sys memory a e i m place p).0 (step k sys memory a e i m place p).1

  module _ (i : ℕ) (m : Shared Queue) (p : Pc) (plain : IsPlain (m.state.mutexes a)) where
    locking-Steps : (role : Role) → owner_of m ≢ suc i → Steps i m go (locking role) p
    unfolding step
    locking-Steps role other =
        elim (lock_cases sys memory a (suc i) (λ e. cc) m.state plain other) [
          | inl (s', e, plain', free, mine) ↦ rw e (plain', ground arith)
          | inr (s', e, held, same) ↦ rw e (rw same plain, ground arith)
        ]

    relocking-Steps :
        (x : ℕ) (st : Outcome) → owner_of m ≢ suc i → Steps i m go in_wait (relocking x st)
    unfolding step Condvar.step
    relocking-Steps x st other =
        elim (lock_cases sys memory a (suc i) (λ e. cc) m.state plain other) [
          | inl (s', e, plain', free, mine) ↦ rw e (plain', ground arith)
          | inr (s', e, held, same) ↦ rw e (rw same plain, ground arith)
        ]

    entering-Steps : owner_of m ≡ suc i → agree entering p ≡ true → Steps i m go entering p
    unfolding step Condvar.step
    entering-Steps mine f =
        let (s', e, plain', free) =
          unlock_frees sys memory a (suc i) (λ e. cc) m.state plain mine in
        elim (Bool-cases (accepts (suc a) m.cond)) [
          | inl same ↦ rw (same, e) (plain', ground (arith, entered i m.cond p f same))
          | inr other ↦ rw other (plain, ground (arith, refused i m.cond p f other))
        ]

    unlocking-Steps : owner_of m ≡ suc i → Steps i m go unlocking p
    unfolding step
    unlocking-Steps mine =
        let (s', e, plain', free) =
          unlock_frees sys memory a (suc i) (λ e. cc) m.state plain mine in
        rw e (plain', ground arith)

  pub step-Moved :
      (e : Event) (i : ℕ) (m : Shared Queue) (place : Place) (p : Pc)
      → IsPlain (m.state.mutexes a)
      → (owner_of m ≡ suc i) ↔ (has_mutex place ≡ true)
      → agree place p ≡ true
      → Steps i m e place p
  unfolding step Condvar.step
  step-Moved go i m (locking role) p plain h f =
      locking-Steps i m p plain role (λ o. ground (arith, h.0 o))
  step-Moved go i m entering p plain h f = entering-Steps i m p plain (h.1 refl) f
  step-Moved go i m unlocking p plain h f = unlocking-Steps i m p plain (h.1 refl)
  step-Moved go i m in_wait (relocking x st) plain h f =
      relocking-Steps i m (relocking x st) plain x st (λ o. ground (arith, h.0 o))
  step-Moved e i m place p plain h f = (ground (arith, plain), ground arith)

  -- A free mutex is taken by the thread that returns from tbthread_cond_wait.
  pub relock_free :
      (i : ℕ) (m : Shared Queue) (place : Place) (p : Pc)
      → IsPlain (m.state.mutexes a)
      → owner_of m ≡ 0
      → agree place p ≡ true
      → is_relocking p ≡ true
      → ((step k sys memory a go i m place p).1 ≡ testing)
        × (owner_of (step k sys memory a go i m place p).0 ≡ suc i)
  unfolding step
  relock_free i m in_wait (relocking x st) plain free f r =
      elim (lock_cases sys memory a (suc i) (λ e. cc) m.state plain (λ e. omega (arith, e, free))) [
        | inl (s', e, plain', none_has, mine) ↦ rw e (refl, mine)
        | inr (s', e, held, same) ↦ absurd (held free)
      ]
  relock_free i m place p plain free f r = ground arith
