-- ===== src/Mutex/Owner.antt =====
-- tb-mutexes.c, lines 108-301: who a mutex belongs to, whatever calls are made.
use threading_from_scratch.Prelude.{
  ℕ,
  ◌≡◌,
  ◌≢◌,
  refl,
  sym,
  subst,
  ◌∙◌,
  Bool,
  Option,
  some,
  List,
  [],
  ◌∷◌,
  arith,
  Outcome.{Outcome},
}
use threading_from_scratch.Sched.{Scheduler}
use threading_from_scratch.Mutex.{
  Mutex, State, Result, returns, waits, faults, normal, recursive, prio_none,
}
use threading_from_scratch.Mutex.Promise.{
  Call, lock, trylock, unlock, call, promise, Fair, call_fairly, IsMutex, view,
}

-- A call by another thread than the owner, of a mutex that is not of the normal type.
promise-stranger :
    (c : Call) (self : ℕ) (m : Mutex)
    → m.type ≢ normal
    → m.owner ≢ 0
    → m.owner ≢ self
    → (promise c self m).1 ≡ m
unfolding promise
promise-stranger lock self m t o d = ground arith
promise-stranger trylock self m t o d = ground arith
promise-stranger unlock self m t o d = ground arith

-- The state after a call, which a fault would leave as it was.
abbrev pub left_by : State → Result → State
left_by s (returns r s') = s'
left_by s (waits s') = s'
left_by s faults = s

pub left_by-view :
    (a : ℕ) (s : State) (r : Result) (x : Option Outcome) (m : Mutex)
    → view a r ≡ some (x, m)
    → (left_by s r).mutexes a ≡ m
left_by-view a s (returns r s') x m e = ground (arith, e)
left_by-view a s (waits s') x m e = ground (arith, e)
left_by-view a s faults x m e = cc

module _ (sys : Scheduler) (a : ℕ) where
  -- Calls on one mutex, each with its caller and whether malloc has memory.
  unfoldable pub calls : List (Call × ℕ × Bool) → State → State
  calls [] s = s
  calls ((c, self, memory) ∷ cs) s = calls cs (left_by s (call c sys memory a self s))

  abbrev pub Strangers : ℕ → List (Call × ℕ × Bool) → Type 0
  Strangers o [] = Unit
  Strangers o ((c, self, memory) ∷ cs) = ((self ≢ 0) × (o ≢ self)) × Strangers o cs

  -- While a thread has an error-checking mutex, or a recursive one without a priority protocol, no
  -- sequence of calls by other threads changes the mutex: it stays with its owner, at its count.
  pub owner_keeps :
      (cs : List (Call × ℕ × Bool)) (s : State)
      → IsMutex (s.mutexes a)
      → (s.mutexes a).type ≢ normal
      → ((s.mutexes a).type ≡ recursive → (s.mutexes a).protocol ≡ prio_none)
      → (s.mutexes a).owner ≢ 0
      → Strangers (s.mutexes a).owner cs
      → (calls cs s).mutexes a ≡ s.mutexes a
  unfolding calls
  owner_keeps [] s is t plain o others = refl
  owner_keeps ((c, self, memory) ∷ cs) s is t plain o others =
      let m = s.mutexes a in
      let fair : Fair c self m = (others.0.0, λ u n. absurd (t n), λ u. plain) in
      let s' = left_by s (call c sys memory a self s) in
      let same : s'.mutexes a ≡ m =
        left_by-view a s (call c sys memory a self s) (promise c self m).0 (promise c self m).1
          (call_fairly c sys memory a self s is fair)
        ∙ promise-stranger c self m t o others.0.1 in
      let P : Mutex → Type 0 = λ x.
        IsMutex x
        × (x.type ≢ normal)
        × (x.type ≡ recursive → x.protocol ≡ prio_none)
        × (x.owner ≢ 0)
        × Strangers x.owner cs in
      let p = subst P (sym same) (is, t, plain, o, others.1) in
      owner_keeps cs s' (p.0) (p.1) (p.2) (p.3) (p.4) ∙ same
