-- ===== src/Sched/Waiters.antt =====
-- tb-sched.c, lines 94-196: the elements of a thread's list of priority inherit mutexes.
use threading_from_scratch.Prelude.{
  ℕ, ◌≡◌, refl, inl, inr, ◌==◌, Bool-cases, some, some-injective, List, [], ◌∷◌, ◌++◌, arith,
}
use threading_from_scratch.Sched.{InhMutex, merge, find_inherit, rm_inherit, set_inherit}
use threading_from_scratch.Sched.Effective.{unpack, inherited, merge_all}
use threading_from_scratch.Sched.Current.{IsSettable, AllSettable, merge-IsSettable}

-- The element of a mutex that no thread waits for.
abbrev pub unused : ℕ → InhMutex
unused m = record { mutex = m; sched_info = 0 }

merge-unused : (p : ℕ × ℕ) → IsSettable p → merge p 0 ≡ p
unfolding merge
merge-unused (policy, priority) s = ground arith

pub merge_all-unused :
    (p : ℕ × ℕ) (m : ℕ) (ims : List InhMutex)
    → IsSettable p
    → AllSettable ims
    → merge_all p (inherited (ims ++ unused m ∷ [])) ≡ merge_all p (inherited ims)
unfolding merge_all
merge_all-unused p m [] s a = merge-unused p s
merge_all-unused p m (im ∷ ims) s a =
    merge_all-unused (merge p im.sched_info) m ims (merge-IsSettable p im.sched_info s a.0) a.1

pub unused-AllSettable :
    (m : ℕ) (ims : List InhMutex) → AllSettable ims → AllSettable (ims ++ unused m ∷ [])
unused-AllSettable m [] a = (inl (refl, refl), tt)
unused-AllSettable m (im ∷ ims) a = (a.0, unused-AllSettable m ims a.1)

pub rm_inherit-AllSettable :
    (m : ℕ) (ims : List InhMutex) → AllSettable ims → AllSettable (rm_inherit m ims)
unfolding rm_inherit
rm_inherit-AllSettable m [] a = tt
rm_inherit-AllSettable m (im ∷ ims) a = elim (Bool-cases (m == im.mutex)) [
  | inl here ↦ rw here a.1
  | inr later ↦ rw later (a.0, rm_inherit-AllSettable m ims a.1)
]

pub set_inherit-AllSettable :
    (m info : ℕ) (ims : List InhMutex)
    → IsSettable (unpack info)
    → AllSettable ims
    → AllSettable (set_inherit m info ims)
unfolding set_inherit
set_inherit-AllSettable m info [] s a = tt
set_inherit-AllSettable m info (im ∷ ims) s a = elim (Bool-cases (m == im.mutex)) [
  | inl here ↦ rw here (s, a.1)
  | inr later ↦ rw later (a.0, set_inherit-AllSettable m info ims s a.1)
]

pub find_inherit-IsSettable :
    (m : ℕ) (im : InhMutex) (ims : List InhMutex)
    → AllSettable ims
    → find_inherit m ims ≡ some im
    → IsSettable (unpack im.sched_info)
unfolding find_inherit
find_inherit-IsSettable m im [] a f = cc
find_inherit-IsSettable m im (x ∷ xs) a f = elim (Bool-cases (m == x.mutex)) [
  | inl here ↦ rw (some-injective x im (rw here at f)) at (a.0)
  | inr later ↦ find_inherit-IsSettable m im xs a.1 (rw later at f)
]
