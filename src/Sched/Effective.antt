-- ===== src/Sched/Effective.antt =====
-- tb-sched.c, lines 201-249: what tb_compute_sched makes of the requests.
use threading_from_scratch.Prelude.{
  ℕ, ◌<◌, ◌≡◌, refl, sym, subst, ◌∙◌, ◌⊎◌, inl, inr, List, [], ◌∷◌, ◌++◌, arith,
}
use threading_from_scratch.Sched.{
  sched_rr, sched_info_policy, sched_info_priority, InhMutex, Thread, merge, merge_inherit,
  merge_protect, effective_sched,
}

abbrev pub unpack : ℕ → ℕ × ℕ
unpack info = (sched_info_policy info, sched_info_priority info)

abbrev pub first_info : (infos : ℕ → ℕ) → List ℕ → List ℕ
first_info infos [] = []
first_info infos (m ∷ ms) = infos m ∷ []

abbrev pub inherited : List InhMutex → List ℕ
inherited [] = []
inherited (im ∷ ims) = im.sched_info ∷ inherited ims

-- All that tb_compute_sched looks at: the user's request, the first protect mutex, the waiters.
abbrev pub requests : (infos : ℕ → ℕ) → Thread → List ℕ
requests infos t =
    t.user_sched_info ∷ (first_info infos t.protect_mutexes ++ inherited t.inherit_mutexes)

unfoldable pub merge_all : ℕ × ℕ → List ℕ → ℕ × ℕ
unfolding merge
merge_all p [] = p
merge_all p (x ∷ xs) = merge_all (merge p x) xs

pub merge_inherit-eq :
    (p : ℕ × ℕ) (ims : List InhMutex) → merge_inherit p ims ≡ merge_all p (inherited ims)
unfolding merge_inherit merge_all
merge_inherit-eq p [] = refl
merge_inherit-eq p (im ∷ ims) = merge_inherit-eq (merge p im.sched_info) ims

pub effective_sched-eq :
    (infos : ℕ → ℕ) (t : Thread)
    → effective_sched infos t
      ≡ merge_all
          (unpack t.user_sched_info)
          (first_info infos t.protect_mutexes ++ inherited t.inherit_mutexes)
unfolding effective_sched merge_all
effective_sched-eq infos t = by_first t.protect_mutexes
  where
    by_first :
        (ms : List ℕ)
        → merge_inherit (merge_protect infos (unpack t.user_sched_info) ms) t.inherit_mutexes
          ≡ merge_all
              (unpack t.user_sched_info)
              (first_info infos ms ++ inherited t.inherit_mutexes)
    by_first [] = merge_inherit-eq _ t.inherit_mutexes
    by_first (m ∷ ms) = merge_inherit-eq _ t.inherit_mutexes

-- A request that a policy and priority meet: a smaller priority, or the same one; and then the policy
-- is round-robin only if that is what the request has too.
abbrev pub Meets : ℕ × ℕ → ℕ → Type 0
Meets (policy, priority) info =
    (sched_info_priority info < priority)
    ⊎ ((sched_info_priority info ≡ priority)
        × (policy ≡ sched_rr → sched_info_policy info ≡ sched_rr))

abbrev pub All {ℓ} : (ℕ → Type ℓ) → List ℕ → Type ℓ
All P [] = Unit
All P (x ∷ xs) = P x × All P xs

abbrev pub Some : (ℕ → Type 0) → List ℕ → Type 0
Some P [] = ⊥
Some P (x ∷ xs) = P x ⊎ Some P xs

merge-Meets_old : (p : ℕ × ℕ) (x y : ℕ) → Meets p x → Meets (merge p y) x
unfolding merge
merge-Meets_old (policy, priority) x y m = ground arith

merge-Meets_new : (p : ℕ × ℕ) (y : ℕ) → Meets (merge p y) y
unfolding merge
merge-Meets_new (policy, priority) y = ground arith

merge-either : (p : ℕ × ℕ) (y : ℕ) → (merge p y ≡ p) ⊎ (merge p y ≡ unpack y)
unfolding merge
merge-either (policy, priority) y = ground arith

merge_all-Meets_old : (p : ℕ × ℕ) (xs : List ℕ) (x : ℕ) → Meets p x → Meets (merge_all p xs) x
unfolding merge_all
merge_all-Meets_old p [] x m = m
merge_all-Meets_old p (y ∷ xs) x m = merge_all-Meets_old (merge p y) xs x (merge-Meets_old p x y m)

merge_all-Meets : (p : ℕ × ℕ) (xs : List ℕ) → All (Meets (merge_all p xs)) xs
unfolding merge_all
merge_all-Meets p [] = tt
merge_all-Meets p (x ∷ xs) =
    (merge_all-Meets_old (merge p x) xs x (merge-Meets_new p x), merge_all-Meets (merge p x) xs)

merge_all-either :
    (p : ℕ × ℕ) (xs : List ℕ) → (merge_all p xs ≡ p) ⊎ Some (λ x. merge_all p xs ≡ unpack x) xs
unfolding merge_all
merge_all-either p [] = inl refl
merge_all-either p (x ∷ xs) = elim (merge_all-either (merge p x) xs) [
  | inr later ↦ inr (inr later)
  | inl first ↦ elim (merge-either p x) [
    | inl kept ↦ inl (first ∙ kept)
    | inr taken ↦ inr (inl (first ∙ taken))
  ]
]

-- The policy and priority that tb_compute_sched asks for meet the user's request, the first priority
-- protect mutex and every waiter of a priority inherit mutex, and are those of one of them.
pub effective_sched-Meets :
    (infos : ℕ → ℕ) (t : Thread)
    → All (Meets (effective_sched infos t)) (requests infos t)
      × Some (λ x. effective_sched infos t ≡ unpack x) (requests infos t)
effective_sched-Meets infos t =
    let others = first_info infos t.protect_mutexes ++ inherited t.inherit_mutexes in
    let user = unpack t.user_sched_info in
    subst (λ e. All (Meets e) (requests infos t) × Some (λ x. e ≡ unpack x) (requests infos t))
      (sym (effective_sched-eq infos t))
      (
        (
          merge_all-Meets_old user others t.user_sched_info (inr (refl, λ e. e)),
          merge_all-Meets user others,
        ),
        merge_all-either user others,
      )
