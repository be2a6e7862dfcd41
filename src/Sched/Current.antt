-- ===== src/Sched/Current.antt =====
-- tb-sched.c, lines 54-196: requests that do not decide the scheduling.
use threading_from_scratch.Prelude.{
  ℕ, ◌≤◌, ◌<◌, ◌≡◌, ◌≢◌, refl, sym, ap, ◌∙◌, ◌⊎◌, inl, inr, ◌==◌, Bool-cases, some, some-injective,
  List, [], ◌∷◌, arith,
}
use threading_from_scratch.Sched.{
  sched_rr, sched_info_pack, InhMutex, merge, find_inherit, rm_inherit,
}
use threading_from_scratch.Sched.Effective.{unpack, inherited, merge_all}

-- What sched_setscheduler(2) takes: SCHED_NORMAL at priority 0, SCHED_FIFO and SCHED_RR at 1 to 99.
abbrev pub IsSettable : ℕ × ℕ → Type 0
IsSettable (policy, priority) =
    ((policy ≡ 0) × (priority ≡ 0))
    ⊎ (((policy ≡ 1) ⊎ (policy ≡ 2)) × (0 < priority) × (priority ≤ 99))

abbrev pub AllSettable : List InhMutex → Type 0
AllSettable [] = Unit
AllSettable (im ∷ ims) = IsSettable (unpack im.sched_info) × AllSettable ims

abbrev pub pack : ℕ × ℕ → ℕ
pack (policy, priority) = sched_info_pack policy priority

pub pack-unpack : (p : ℕ × ℕ) → IsSettable p → unpack (pack p) ≡ p
pack-unpack (policy, priority) s = ground arith

pub unpack-pack : (info : ℕ) → IsSettable (unpack info) → pack (unpack info) ≡ info
unpack-pack info s = ground arith

pub merge-IsSettable :
    (p : ℕ × ℕ) (x : ℕ) → IsSettable p → IsSettable (unpack x) → IsSettable (merge p x)
unfolding merge
merge-IsSettable (policy, priority) x s sx = ground arith

pub merge_inherited-IsSettable :
    (p : ℕ × ℕ) (ims : List InhMutex)
    → IsSettable p
    → AllSettable ims
    → IsSettable (merge_all p (inherited ims))
unfolding merge_all
merge_inherited-IsSettable p [] s a = s
merge_inherited-IsSettable p (im ∷ ims) s a =
    merge_inherited-IsSettable (merge p im.sched_info) ims (merge-IsSettable p im.sched_info s a.0)
      a.1

-- The first gives way to the second, or they differ in the policy only and neither gives way.
abbrev Below : ℕ × ℕ → ℕ × ℕ → Type 0
Below (policy, priority) (policy', priority') =
    (priority < priority') ⊎ ((priority ≡ priority') × ((policy ≡ sched_rr) ⊎ (policy' ≢ sched_rr)))

merge-cases : (p : ℕ × ℕ) (x : ℕ) → (merge p x ≡ p) ⊎ ((merge p x ≡ unpack x) × Below p (unpack x))
unfolding merge
merge-cases (policy, priority) x = ground arith

merge-Below :
    (p q : ℕ × ℕ) (x : ℕ)
    → Below p q
    → (merge p x ≡ merge q x) ⊎ ((merge q x ≡ q) × Below (merge p x) q)
unfolding merge
merge-Below (a, b) (c, d) x l = ground arith

-- Once something overrides `q`, what is below `q` did not matter.
merge_all-Below :
    (p q : ℕ × ℕ) (ys : List ℕ) → Below p q → merge_all q ys ≢ q → merge_all p ys ≡ merge_all q ys
unfolding merge_all
merge_all-Below p q [] l ne = elim (ne refl) [ ]
merge_all-Below p q (y ∷ ys) l ne = elim (merge-Below p q y l) [
  | inl same ↦ ap (λ r. merge_all r ys) same
  | inr kept ↦
      let same = ap (λ r. merge_all r ys) (kept.0) in
      merge_all-Below (merge p y) q ys kept.1 (λ e. ne (same ∙ e)) ∙ sym same
]

-- A request that does not decide the result can go.
merge-skip :
    (p : ℕ × ℕ) (x : ℕ) (ys : List ℕ)
    → merge_all (merge p x) ys ≢ unpack x
    → merge_all p ys ≡ merge_all (merge p x) ys
merge-skip p x ys ne = elim (merge-cases p x) [
  | inl same ↦ ap (λ r. merge_all r ys) (sym same)
  | inr (taken, below) ↦
      let same = ap (λ r. merge_all r ys) taken in
      merge_all-Below p (unpack x) ys below (λ e. ne (same ∙ e)) ∙ sym same
]

pub merge_all-rm_inherit :
    (p : ℕ × ℕ) (m : ℕ) (im : InhMutex) (ims : List InhMutex)
    → find_inherit m ims ≡ some im
    → merge_all p (inherited ims) ≢ unpack im.sched_info
    → merge_all p (inherited (rm_inherit m ims)) ≡ merge_all p (inherited ims)
unfolding merge_all find_inherit rm_inherit
merge_all-rm_inherit p m im [] f ne = refl
merge_all-rm_inherit p m im (x ∷ xs) f ne = elim (Bool-cases (m == x.mutex)) [
  | inl here ↦
      let same = some-injective x im (rw here at f) in
      rw here (
        merge-skip p x.sched_info (inherited xs) (λ e. ne (e ∙ ap (λ i. unpack i.sched_info) same)))
  | inr later ↦ rw later (merge_all-rm_inherit (merge p x.sched_info) m im xs (rw later at f) ne)
]
