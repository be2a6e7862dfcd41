-- ===== src/Boost/Kept.antt =====
-- tb-mutexes.c, lines 226-275, with tb-sched.c: the element of the mutex in the list of its owner.
use threading_from_scratch.Prelude.{
  ℕ, suc, ◌≡◌, ◌≢◌, inl, inr, Bool, true, false, Bool-cases, arith,
}
use threading_from_scratch.Kernel.{Kernel}
use threading_from_scratch.Futex.{Pc, holding, Event}
use threading_from_scratch.Inherit.{Mutex, Place, leaving, releasing, owning, move}
use threading_from_scratch.Inherit.Invariant.{agree, is_owner, is_named, is_lending, Fields}
use threading_from_scratch.Inherit.Inner.{alone}
use threading_from_scratch.Inherit.Kept.{agree-holding}
use threading_from_scratch.Inherit.Safety.{one_owner, lending-owner}
use threading_from_scratch.Inherit.Threads.{Threads}
use threading_from_scratch.Boost.{SchedCall, add, sched, unsched, nothing, next_call}

-- The thread has the mutex, and an element of it in its list.
abbrev pub is_boosted : Place → Bool
is_boosted (leaving try true) = true
is_boosted owning = true
is_boosted releasing = true
is_boosted _ = false

-- What a call says of its thread's place before and after.
abbrev pub Turns : SchedCall → Place → Place → Type 0
Turns add place place' =
    (is_named place ≡ true)
    × (is_owner place ≡ true)
    × (is_boosted place ≡ false)
    × (is_boosted place' ≡ true)
Turns sched place place' =
    (is_lending place ≡ true) × (is_boosted place ≡ false) × (is_boosted place' ≡ false)
Turns unsched place place' =
    (is_named place ≡ true)
    × (is_owner place ≡ true)
    × (is_boosted place ≡ true)
    × (is_boosted place' ≡ false)
Turns nothing place place' = is_boosted place' ≡ is_boosted place

pub move-Turns :
    (k : Kernel) (e : Event) (i : ℕ) (m : Mutex k.Queue) (place : Place) (p : Pc)
    → Turns (next_call e place p) place (move k e i m place p).1
unfolding move
move-Turns k e i m place p = ground arith

owner-boosted :
    (place : Place) (p : Pc)
    → agree place p ≡ true
    → p ≢ holding
    → is_owner place ≡ true
    → is_boosted place ≡ true
owner-boosted place p f out h = ground arith

pub boosted-owner : (place : Place) → is_boosted place ≡ true → is_owner place ≡ true
boosted-owner place h = ground arith

module _ (k : Kernel) {n : ℕ} {s : Threads k.Queue} (inv : Fields k n s) where
  -- Line 240 goes to the list of a thread with an element.
  pub lending-boosted :
      (i : ℕ)
      → is_lending (s.place i) ≡ true
      → (j : ℕ) × (s.mem.owner ≡ suc j) × (is_boosted (s.place j) ≡ true)
  lending-boosted i l =
      let (j, named, h) = lending-owner k inv i l in
      let out : s.pc j ≢ holding = λ p. ground (
        arith,
        alone k n s inv.locks i j (agree-holding k (s.place i) (s.pc i) (inv.fit i) (inr l)) p,
      ) in
      (j, named, owner-boosted (s.place j) (s.pc j) (inv.fit j) out h)

  -- Beside the owner no thread has an element.
  pub others_plain :
      (i j : ℕ) → is_owner (s.place i) ≡ true → i ≢ j → is_boosted (s.place j) ≡ false
  others_plain i j h d = elim (Bool-cases (is_boosted (s.place j))) [
    | inl b ↦ absurd (d (one_owner k inv i j h (boosted-owner (s.place j) b)))
    | inr b ↦ b
  ]
