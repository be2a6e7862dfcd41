-- ===== src/Monitor/Mutexes.antt =====
-- tb-mutexes.c, lines 108-301: what a call on the mutex of a condition variable may end with.
use threading_from_scratch.Prelude.{
  ℕ,
  ◌≡◌,
  ◌≢◌,
  ◌⊎◌,
  inl,
  inr,
  Bool,
  none,
  some,
  ◌∙◌,
  ap,
  arith,
  Outcome.{Outcome, ok},
}
use native.Mathlib.Decide.{ℕ_discrete}
use threading_from_scratch.Sched.{Scheduler}
use threading_from_scratch.Mutex.{Mutex, State, Result, returns, waits, faults, recursive}
use threading_from_scratch.Mutex.Promise.{
  Call, lock, trylock, unlock, call, promise, view, IsMutex, call_fairly, promise-IsMutex,
}

returned_view :
    (a : ℕ) (r : Result) (o : Outcome) (m : Mutex)
    → view a r ≡ some (some o, m)
    → (s : State) × (r ≡ returns o s) × (s.mutexes a ≡ m)
returned_view a (returns r s) o m e = (s, ground arith, ground arith)
returned_view a (waits s) o m e = cc
returned_view a faults o m e = cc

waited_view :
    (a : ℕ) (r : Result) (m : Mutex)
    → view a r ≡ some (none, m)
    → (s : State) × (r ≡ waits s) × (s.mutexes a ≡ m)
waited_view a (returns r s) m e = cc
waited_view a (waits s) m e = (s, ground arith, ground arith)
waited_view a faults m e = cc

-- A mutex with 0 or a thread for its owner, which is not recursive.
pub record IsPlain (m : Mutex) : Type 0 where
  pub is : IsMutex m
  pub once : m.type ≢ recursive

promise-IsPlain :
    (c : Call) (self : ℕ) (m : Mutex) → self ≢ 0 → IsPlain m → IsPlain (promise c self m).1
unfolding promise
promise-IsPlain c self m set p = record {
  is = promise-IsMutex c self m set p.is;
  once = λ r. p.once (kept c r);
}
  where
    kept : (c : Call) → (promise c self m).1.type ≡ recursive → m.type ≡ recursive
    kept lock r = ground arith
    kept trylock r = ground arith
    kept unlock r = ground arith

promise-lock :
    (self : ℕ) (m : Mutex)
    → m.owner ≢ self
    → (m.owner ≡ 0 → ((promise lock self m).0 ≡ some ok) × ((promise lock self m).1.owner ≡ self))
      × (m.owner ≢ 0 → promise lock self m ≡ (none, m))
unfolding promise
promise-lock self m d = (λ free. ground arith, λ held. ground arith)

promise-unlock :
    (self : ℕ) (m : Mutex)
    → m.type ≢ recursive
    → m.owner ≡ self
    → ((promise unlock self m).0 ≡ some ok) × ((promise unlock self m).1.owner ≡ 0)
unfolding promise
promise-unlock self m once mine = ground arith

module _ (sys : Scheduler) (memory : Bool) (a self : ℕ) (set : self ≢ 0) (s : State) where
  module _ (plain : IsPlain (s.mutexes a)) where
    open plain use {is, once}

    promised :
        (c : Call)
        → (c ≡ unlock → (s.mutexes a).owner ≡ self)
        → view a (call c sys memory a self s) ≡ some (promise c self (s.mutexes a))
    promised c mine =
        call_fairly c sys memory a self s is
          (set, λ u n. ground (arith, mine), λ u r. absurd (once r))

    -- A lock by a thread that does not have the mutex gets it, or waits and leaves it as it is.
    pub lock_cases :
        (s.mutexes a).owner ≢ self
        → ((s' : State) × (call lock sys memory a self s ≡ returns ok s')
            × IsPlain (s'.mutexes a)
            × ((s.mutexes a).owner ≡ 0)
            × ((s'.mutexes a).owner ≡ self))
          ⊎ ((s' : State) × (call lock sys memory a self s ≡ waits s')
              × ((s.mutexes a).owner ≢ 0)
              × (s'.mutexes a ≡ s.mutexes a))
    lock_cases other = elim (ℕ_discrete (s.mutexes a).owner 0) [
      | yes free ↦
          let (o, mine) = (promise-lock self (s.mutexes a) other).0 free in
          let (s', e, m) =
            returned_view a (call lock sys memory a self s) ok (promise lock self (s.mutexes a)).1 (
              promised lock (λ u. cc)
              ∙ ap (λ x. some (x, (promise lock self (s.mutexes a)).1)) o) in
          inl (s', e, rw m (promise-IsPlain lock self (s.mutexes a) set plain), free, rw m mine)
      | no held ↦
          let waiting = (promise-lock self (s.mutexes a) other).1 held in
          let (s', e, m) =
            waited_view a (call lock sys memory a self s) (s.mutexes a)
              (promised lock (λ u. cc) ∙ ap some waiting) in
          inr (s', e, held, m)
    ]

    -- An unlock by the thread that has the mutex frees it.
    pub unlock_frees :
        (s.mutexes a).owner ≡ self
        → (s' : State) × (call unlock sys memory a self s ≡ returns ok s')
          × IsPlain (s'.mutexes a)
          × ((s'.mutexes a).owner ≡ 0)
    unlock_frees mine =
        let (o, free) = promise-unlock self (s.mutexes a) once mine in
        let (s', e, m) =
          returned_view a (call unlock sys memory a self s) ok (promise unlock self (s.mutexes a)).1
            (promised unlock (λ u. mine)
              ∙ ap (λ x. some (x, (promise unlock self (s.mutexes a)).1)) o) in
        (s', e, rw m (promise-IsPlain unlock self (s.mutexes a) set plain), rw m free)
