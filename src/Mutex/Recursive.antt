-- ===== src/Mutex/Recursive.antt =====
-- tb-mutexes.c, lines 151-196: recursive mutexes.
use threading_from_scratch.Prelude.{
  ℕ, zero, suc, ◌+◌, ◌≤◌, ◌<◌, ◌≡◌, ◌≢◌, refl, sym, subst, ◌∙◌, inl, Bool, List, replicate, arith,
}
use threading_from_scratch.Sched.{Scheduler}
use threading_from_scratch.Mutex.{Mutex, State, recursive, prio_none, counter_max}
use threading_from_scratch.Mutex.Promise.{
  Call, lock, unlock, call, promise, call_fairly, IsMutex, given_back,
}
use threading_from_scratch.Mutex.Owner.{left_by, left_by-view, calls}

-- A recursive mutex without a priority protocol that a thread has locked a number of times.
abbrev Nested : ℕ → ℕ → Mutex → Type 0
Nested self n m =
    IsMutex m × (m.type ≡ recursive) × (m.protocol ≡ prio_none) × (m.owner ≡ self) × (m.counter ≡ n)

recount-Nested :
    (self n k : ℕ) (m : Mutex)
    → self ≢ 0
    → 0 < k
    → k ≤ counter_max
    → Nested self n m
    → Nested self k (record m { counter = k })
recount-Nested self n k m set pos le (is, t, p, o, c) = (
  record {
    known_type = is.known_type;
    known_protocol = is.known_protocol;
    owned = is.owned;
    counted = λ r. (λ e. ground (arith, o, e), λ e. ground (arith, e));
    count_fits = le;
  },
  t,
  p,
  o,
  refl,
)

-- A number of calls of one kind.
abbrev pub repeat : (memory : Bool) → (self : ℕ) → Call → ℕ → List (Call × ℕ × Bool)
repeat memory self c n = replicate n (c, self, memory)

module _ (sys : Scheduler) (memory : Bool) (a self : ℕ) (set : self ≢ 0) where
  lock_again :
      (n : ℕ) (s : State)
      → Nested self n (s.mutexes a)
      → n < counter_max
      → (left_by s (call lock sys memory a self s)).mutexes a
        ≡ record (s.mutexes a) { counter = n + 1 }
  unfolding promise
  lock_again n s (is, t, p, o, c) lt =
      left_by-view a s (call lock sys memory a self s) _ _
        (call_fairly lock sys memory a self s is (set, λ u n. cc, λ u n. p))
      ∙ ground (arith, t, o, c, lt)

  unlock_again :
      (n : ℕ) (s : State)
      → Nested self (suc (suc n)) (s.mutexes a)
      → (left_by s (call unlock sys memory a self s)).mutexes a
        ≡ record (s.mutexes a) { counter = suc n }
  unfolding promise
  unlock_again n s (is, t, p, o, c) =
      left_by-view a s (call unlock sys memory a self s) _ _
        (call_fairly unlock sys memory a self s is (set, λ u n. ground (arith, t), λ u n. p))
      ∙ ground (arith, t, o, c)

  unlock_last :
      (s : State)
      → Nested self 1 (s.mutexes a)
      → (left_by s (call unlock sys memory a self s)).mutexes a ≡ given_back (s.mutexes a)
  unfolding promise
  unlock_last s (is, t, p, o, c) =
      left_by-view a s (call unlock sys memory a self s) _ _
        (call_fairly unlock sys memory a self s is (set, λ u n. ground (arith, t), λ u n. p))
      ∙ ground (arith, t, o, c)

  first-Nested :
      (m : Mutex)
      → IsMutex m
      → m.type ≡ recursive
      → m.protocol ≡ prio_none
      → Nested self 1 (record m { futex = 1; owner = self; counter = 1 })
  first-Nested m is t p = (
    record {
      known_type = is.known_type;
      known_protocol = is.known_protocol;
      owned = inl (refl, set);
      counted = λ r. (λ e. absurd (set e), λ e. cc);
      count_fits = omega arith;
    },
    t,
    p,
    refl,
    refl,
  )

  lock_first :
      (s : State)
      → Nested 0 0 (s.mutexes a)
      → (left_by s (call lock sys memory a self s)).mutexes a
        ≡ record (s.mutexes a) { futex = 1; owner = self; counter = 1 }
  unfolding promise
  lock_first s (is, t, p, o, c) =
      left_by-view a s (call lock sys memory a self s) _ _
        (call_fairly lock sys memory a self s is (set, λ u n. cc, λ u n. p))
      ∙ ground (arith, t, o, c)

  nest_up :
      (n j : ℕ) (s : State)
      → Nested self j (s.mutexes a)
      → 0 < j
      → j + n ≤ counter_max
      → (calls sys a (repeat memory self lock n) s).mutexes a
        ≡ record (s.mutexes a) { counter = j + n }
  unfolding calls
  nest_up zero j s nested pos le = ground (arith, nested.4)
  nest_up (suc n) j s nested pos le =
      let s' = left_by s (call lock sys memory a self s) in
      let up = lock_again j s nested (omega arith) in
      let nested' : Nested self (j + 1) (s'.mutexes a) =
        subst (Nested self (j + 1)) (sym up)
          (recount-Nested self j (j + 1) (s.mutexes a) set (omega arith) (omega arith) nested) in
      let rest = nest_up n (j + 1) s' nested' (omega arith) (omega arith) in
      ground (arith, rest, up)

  nest_down :
      (n : ℕ) (s : State)
      → Nested self (suc n) (s.mutexes a)
      → (calls sys a (repeat memory self unlock (suc n)) s).mutexes a ≡ given_back (s.mutexes a)
  unfolding calls
  nest_down zero s nested = unlock_last s nested
  nest_down (suc n) s nested =
      let s' = left_by s (call unlock sys memory a self s) in
      let down = unlock_again n s nested in
      let nested' : Nested self (suc n) (s'.mutexes a) = subst (Nested self (suc n)) (sym down) (
        recount-Nested self (suc (suc n)) (suc n) (s.mutexes a) set (omega arith)
          (omega (arith, (nested.0).count_fits, nested.4)) nested) in
      let rest = nest_down n s' nested' in ground (arith, rest, down)

  -- A recursive mutex without a priority protocol that is free, locked any number of times by one
  -- thread, up to the largest count, is that thread's and has that count; after as many unlocks it
  -- is as before.
  pub recursive_nests :
      (n : ℕ) (s : State)
      → IsMutex (s.mutexes a)
      → (s.mutexes a).type ≡ recursive
      → (s.mutexes a).protocol ≡ prio_none
      → (s.mutexes a).owner ≡ 0
      → n < counter_max
      → let s' = calls sys a (repeat memory self lock (suc n)) s in
        ((s'.mutexes a).owner ≡ self)
        × ((s'.mutexes a).counter ≡ suc n)
        × ((calls sys a (repeat memory self unlock (suc n)) s').mutexes a ≡ s.mutexes a)
  unfolding calls
  recursive_nests n s is t p o lt =
      let s1 = left_by s (call lock sys memory a self s) in
      let c = (is.counted t).0 o in
      let first = lock_first s (is, t, p, o, c) in
      let nested : Nested self 1 (s1.mutexes a) =
        subst (Nested self 1) (sym first) (first-Nested (s.mutexes a) is t p) in
      let s' = calls sys a (repeat memory self lock n) s1 in
      let up = nest_up n 1 s1 nested (omega arith) (omega arith) in
      let one_more : 1 + n ≡ suc n = omega arith in
      let nested' : Nested self (suc n) (s'.mutexes a) =
        subst (λ k. Nested self k (s'.mutexes a)) one_more
          (subst (Nested self (1 + n)) (sym up) (
            recount-Nested self 1 (1 + n) (s1.mutexes a) set (omega arith) (omega arith) nested)) in
      let down = nest_down n s' nested' in
      (
        ground (arith, up, first),
        ground (arith, up),
        ground (arith, down, up, first, c, o, is.owned, t),
      )
