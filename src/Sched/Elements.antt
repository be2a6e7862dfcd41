-- ===== src/Sched/Elements.antt =====
-- tb-sched.c, lines 94-196: the element of one priority inherit mutex, and what its thread runs with.
use threading_from_scratch.Prelude.{
  ℕ, ◌≤◌, ◌≡◌, inl, inr, ◌==◌, Bool-cases, Option, none, some, true, List, [], ◌∷◌, ◌++◌,
  some-injective, subst, ap, sym, ◌∙◌, if◌then◌else◌, false, arith,
}
use threading_from_scratch.Sched.{
  sched_info_priority, effective_sched, Scheduler, InhMutex, Thread, tb_compute_sched, tb_set_sched,
  sched_found, unsched_found, find_inherit, rm_inherit, set_inherit, raises, tb_inherit_mutex_add,
  tb_inherit_mutex_sched, tb_inherit_mutex_unsched,
}
use threading_from_scratch.Sched.Effective.{inherited, Meets, All, unpack, first_info}
use threading_from_scratch.Sched.Kept.{Kept, effective-IsSettable}
use threading_from_scratch.Sched.History.{Kept-Follows}
use threading_from_scratch.Sched.Current.{IsSettable, pack-unpack}
use threading_from_scratch.Sched.Waiters.{unused}

-- The list has one element of the mutex.
pub record Holds (m : ℕ) (im : InhMutex) (ims : List InhMutex) : Type 0 where
  pub has : find_inherit m ims ≡ some im
  pub once : find_inherit m (rm_inherit m ims) ≡ none

add_unused-Holds :
    (m : ℕ) (ims : List InhMutex)
    → find_inherit m ims ≡ none
    → Holds m (unused m) (ims ++ unused m ∷ [])
unfolding find_inherit rm_inherit
add_unused-Holds m [] h = record { has = ground arith; once = ground arith }
add_unused-Holds m (im ∷ ims) h = elim (Bool-cases (m == im.mutex)) [
  | inl here ↦ cc
  | inr later ↦
      let rest = add_unused-Holds m ims (rw later at h) in
      record { has = rw later rest.has; once = rw (later, later) rest.once }
]

-- `find_inherit` at the head of a list, and behind it.
find_here :
    (m : ℕ) (x : InhMutex) (xs : List InhMutex)
    → (m == x.mutex) ≡ true
    → find_inherit m (x ∷ xs) ≡ some x
unfolding find_inherit
find_here m x xs e = rw e

find_later :
    (m : ℕ) (x : InhMutex) (xs : List InhMutex)
    → (m == x.mutex) ≡ false
    → find_inherit m (x ∷ xs) ≡ find_inherit m xs
unfolding find_inherit
find_later m x xs e = rw e

rm_here :
    (m : ℕ) (x : InhMutex) (xs : List InhMutex) → (m == x.mutex) ≡ true → rm_inherit m (x ∷ xs) ≡ xs
unfolding rm_inherit
rm_here m x xs e = rw e

rm_later :
    (m : ℕ) (x : InhMutex) (xs : List InhMutex)
    → (m == x.mutex) ≡ false
    → rm_inherit m (x ∷ xs) ≡ x ∷ rm_inherit m xs
unfolding rm_inherit
rm_later m x xs e = rw e

set_here :
    (m info : ℕ) (x : InhMutex) (xs : List InhMutex)
    → (m == x.mutex) ≡ true
    → set_inherit m info (x ∷ xs) ≡ record x { sched_info = info } ∷ xs
unfolding set_inherit
set_here m info x xs e = rw e

set_later :
    (m info : ℕ) (x : InhMutex) (xs : List InhMutex)
    → (m == x.mutex) ≡ false
    → set_inherit m info (x ∷ xs) ≡ x ∷ set_inherit m info xs
unfolding set_inherit
set_later m info x xs e = rw e

-- The first element of the mutex gets another `sched_info`.
set_inherit-Holds :
    (m info : ℕ) (im : InhMutex) (ims : List InhMutex)
    → find_inherit m ims ≡ some im
    → (find_inherit m (set_inherit m info ims) ≡ some (record im { sched_info = info }))
      × (rm_inherit m (set_inherit m info ims) ≡ rm_inherit m ims)
unfolding find_inherit
set_inherit-Holds m info im [] h = cc
set_inherit-Holds m info im (x ∷ xs) h = elim (Bool-cases (m == x.mutex)) [
  | inl here ↦
      let same : x ≡ im = some-injective x im (rw here at h) in
      let changed : InhMutex → Option InhMutex = λ y. some (record y { sched_info = info }) in
      (
        ap (find_inherit m) (set_here m info x xs here) ∙ find_here m _ xs here ∙ ap changed same,
        ap (rm_inherit m) (set_here m info x xs here)
            ∙ rm_here m _ xs here
            ∙ sym (rm_here m x xs here),
      )
  | inr later ↦
      let (has, rest) = set_inherit-Holds m info im xs (rw later at h) in
      (
        ap (find_inherit m) (set_later m info x xs later) ∙ find_later m x _ later ∙ has,
        ap (rm_inherit m) (set_later m info x xs later)
            ∙ rm_later m x _ later
            ∙ ap (λ l. x ∷ l) rest
            ∙ sym (rm_later m x xs later),
      )
]

-- Which `sched_info` stays, of the mutex's and the one of a thread that waits.
abbrev pub raised : ℕ → InhMutex → InhMutex
raised th im = if raises th im.sched_info then record im { sched_info = th } else im

compute-elements :
    (sys : Scheduler) (infos : ℕ → ℕ) (t : Thread)
    → (tb_compute_sched sys infos t).0.inherit_mutexes ≡ t.inherit_mutexes
unfolding tb_compute_sched tb_set_sched
compute-elements sys infos t = ground arith

module _ (sys : Scheduler) (infos : ℕ → ℕ) (m : ℕ) (t : Thread) where
  pub add-Holds :
      find_inherit m t.inherit_mutexes ≡ none
      → Holds m (unused m) (tb_inherit_mutex_add true m t).inherit_mutexes
  unfolding tb_inherit_mutex_add
  add-Holds h = add_unused-Holds m t.inherit_mutexes h

  pub sched-Holds :
      (th : ℕ) (im : InhMutex)
      → Holds m im t.inherit_mutexes
      → Holds m (raised th im) (tb_inherit_mutex_sched sys infos m th t).inherit_mutexes
  unfolding tb_inherit_mutex_sched sched_found
  sched-Holds th im h = elim (Bool-cases (raises th im.sched_info)) [
    | inl up ↦
        let (has, rest) = set_inherit-Holds m th im t.inherit_mutexes h.has in
        let set = record t { inherit_mutexes = set_inherit m th t.inherit_mutexes } in
        let same = compute-elements sys infos set in
        rw (h.has, up, same) (record { has = has; once = rw rest h.once })
    | inr stays ↦ rw (h.has, stays) h
  ]

  pub unsched-gone :
      (im : InhMutex)
      → Holds m im t.inherit_mutexes
      → find_inherit m (tb_inherit_mutex_unsched sys infos m t).inherit_mutexes ≡ none
  unfolding tb_inherit_mutex_unsched unsched_found
  unsched-gone im h = elim (Bool-cases (im.sched_info == t.sched_info)) [
    | inl same ↦
        let rest = record t { inherit_mutexes = rm_inherit m t.inherit_mutexes } in
        rw (h.has, same, compute-elements sys infos rest) h.once
    | inr other ↦ rw (h.has, other) h.once
  ]

pub raised-le :
    (th : ℕ) (im : InhMutex)
    → (sched_info_priority th ≤ sched_info_priority (raised th im).sched_info)
      × (sched_info_priority im.sched_info ≤ sched_info_priority (raised th im).sched_info)
raised-le th im = ground arith

met_by :
    (m : ℕ) (p : ℕ × ℕ) (im : InhMutex) (ims : List InhMutex)
    → All (Meets p) (inherited ims)
    → find_inherit m ims ≡ some im
    → sched_info_priority im.sched_info ≤ p.1
unfolding find_inherit
met_by m p im [] a h = cc
met_by m p im (x ∷ xs) a h = elim (Bool-cases (m == x.mutex)) [
  | inl here ↦
      let same : x ≡ im = some-injective x im (rw here at h) in
      rw (ap InhMutex.sched_info (sym same)) (omega (arith, a.0))
  | inr later ↦ met_by m p im xs a.1 (rw later at h)
]

All-right : (P : ℕ → Type 0) (xs ys : List ℕ) → All P (xs ++ ys) → All P ys
All-right P [] ys a = a
All-right P (x ∷ xs) ys a = All-right P xs ys a.1

-- A thread's priority is at least the one of the element of each priority inherit mutex.
pub Kept-meets :
    (infos : ℕ → ℕ) (m : ℕ) (im : InhMutex) (t : Thread)
    → ((b : ℕ) → IsSettable (unpack (infos b)))
    → Kept infos t
    → Holds m im t.inherit_mutexes
    → sched_info_priority im.sched_info ≤ sched_info_priority t.sched_info
Kept-meets infos m im t settable k h =
    met_by m (unpack t.sched_info) im t.inherit_mutexes
      (All-right (Meets (unpack t.sched_info)) (first_info infos t.protect_mutexes)
        (inherited t.inherit_mutexes) ((Kept-Follows infos t settable k).meets.1))
      h.has

-- What a thread runs with may be asked for.
pub Kept-IsSettable :
    (infos : ℕ → ℕ) (t : Thread)
    → ((b : ℕ) → IsSettable (unpack (infos b)))
    → Kept infos t
    → IsSettable (unpack t.sched_info)
Kept-IsSettable infos t settable k =
    let eff = effective-IsSettable infos t settable k.user k.waiters in
    subst IsSettable (sym (ap unpack k.current ∙ pack-unpack (effective_sched infos t) eff)) eff
