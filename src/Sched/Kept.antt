-- ===== src/Sched/Kept.antt =====
-- tb-sched.c, lines 33-249: each operation keeps a thread's scheduling what tb_compute_sched makes it.
use threading_from_scratch.Prelude.{
  ℕ,
  ◌≡◌,
  refl,
  sym,
  ap,
  ◌∙◌,
  inl,
  inr,
  Bool,
  true,
  false,
  ◌==◌,
  Bool-cases,
  Option,
  none,
  some,
  List,
  [],
  ◌∷◌,
  arith,
  Outcome.{ok},
}
use threading_from_scratch.Sched.{
  InhMutex, Thread, merge_inherit, merge_protect, effective_sched, Scheduler, set_if, tb_set_sched,
  tb_compute_sched, goes_first, is_first, tb_protect_mutex_sched, tb_protect_mutex_unsched,
  tb_inherit_mutex_add, tb_inherit_mutex_unsched, tb_inherit_mutex_sched, unsched_found,
  sched_found, raises, find_inherit,
}
use threading_from_scratch.Sched.Effective.{
  unpack, first_info, inherited, merge_all, merge_inherit-eq,
}
use threading_from_scratch.Sched.Lists.{
  IsSorted, add_protect-IsSorted, rm_protect-IsSorted, first_info-add_protect,
  first_info-rm_protect,
}
use threading_from_scratch.Sched.Current.{
  IsSettable, AllSettable, pack, unpack-pack, merge-IsSettable, merge_inherited-IsSettable,
  merge_all-rm_inherit,
}
use threading_from_scratch.Sched.Waiters.{
  merge_all-unused, unused-AllSettable, rm_inherit-AllSettable, set_inherit-AllSettable,
  find_inherit-IsSettable,
}

-- The kernel sets what sched_setscheduler(2) documents as valid.
abbrev pub Grants : Scheduler → Type 0
Grants sys =
    (tid policy priority : ℕ) → IsSettable (policy, priority) → sys tid policy priority ≡ ok

-- The policy and priority so far, before the waiters are looked at.
abbrev before_waiters : (infos : ℕ → ℕ) → Thread → ℕ × ℕ
before_waiters infos t = merge_protect infos (unpack t.user_sched_info) t.protect_mutexes

differs :
    (im : InhMutex) (info : ℕ)
    → (im.sched_info == info) ≡ false
    → info ≡ pack (unpack im.sched_info)
    → IsSettable (unpack im.sched_info)
    → ⊥
differs im info other e s = let same = e ∙ unpack-pack im.sched_info s in ground arith

module _ (infos : ℕ → ℕ) where
  pub record Kept (t : Thread) : Type 0 where
    pub sorted : IsSorted infos t.protect_mutexes
    pub user : IsSettable (unpack t.user_sched_info)
    pub waiters : AllSettable t.inherit_mutexes
    pub current : t.sched_info ≡ pack (effective_sched infos t)

  effective-merge_all :
      (t : Thread)
      → effective_sched infos t ≡ merge_all (before_waiters infos t) (inherited t.inherit_mutexes)
  unfolding effective_sched merge_protect
  effective-merge_all t = merge_inherit-eq (before_waiters infos t) t.inherit_mutexes

  before-IsSettable :
      (p : ℕ × ℕ) (ms : List ℕ)
      → ((m : ℕ) → IsSettable (unpack (infos m)))
      → IsSettable p
      → IsSettable (merge_protect infos p ms)
  unfolding merge_protect
  before-IsSettable p [] i s = s
  before-IsSettable p (m ∷ ms) i s = merge-IsSettable p (infos m) s (i m)

  pub effective-IsSettable :
      (t : Thread)
      → ((m : ℕ) → IsSettable (unpack (infos m)))
      → IsSettable (unpack t.user_sched_info)
      → AllSettable t.inherit_mutexes
      → IsSettable (effective_sched infos t)
  effective-IsSettable t i s a = rw (effective-merge_all t) (
      merge_inherited-IsSettable (before_waiters infos t) t.inherit_mutexes
        (before-IsSettable (unpack t.user_sched_info) t.protect_mutexes i s) a)

  merge_protect-first :
      (p : ℕ × ℕ) (xs ys : List ℕ)
      → first_info infos xs ≡ first_info infos ys
      → merge_protect infos p xs ≡ merge_protect infos p ys
  unfolding merge_protect
  merge_protect-first p [] [] f = refl
  merge_protect-first p [] (y ∷ ys) f = cc
  merge_protect-first p (x ∷ xs) [] f = cc
  merge_protect-first p (x ∷ xs) (y ∷ ys) f = cc

  same_first :
      (xs ys : List ℕ)
      → first_info infos xs ≡ first_info infos ys
      → (t : Thread)
      → effective_sched infos (record t { protect_mutexes = xs })
        ≡ effective_sched infos (record t { protect_mutexes = ys })
  unfolding effective_sched
  same_first xs ys f t =
      ap (λ p. merge_inherit p t.inherit_mutexes)
        (merge_protect-first (unpack t.user_sched_info) xs ys f)

  module _ (sys : Scheduler) (grants : Grants sys)
      (settable : (m : ℕ) → IsSettable (unpack (infos m))) where
    pub compute-Kept :
        (t : Thread)
        → IsSorted infos t.protect_mutexes
        → IsSettable (unpack t.user_sched_info)
        → AllSettable t.inherit_mutexes
        → Kept (tb_compute_sched sys infos t).0
    unfolding tb_compute_sched tb_set_sched set_if effective_sched
    compute-Kept t s u w =
        let e = effective_sched infos t in
        let granted = grants t.tid (e.0) (e.1) (effective-IsSettable t settable u w) in
        rw granted (record { sorted = s; user = u; waiters = w; current = refl })

    pub protect_sched-Kept :
        (has_node : Bool) (m : ℕ) (t : Thread)
        → Kept t
        → Kept (tb_protect_mutex_sched sys infos has_node m t)
    unfolding tb_protect_mutex_sched
    protect_sched-Kept false m t k = k
    protect_sched-Kept true m t k = elim (Bool-cases (goes_first infos m t.protect_mutexes)) [
      | inl first ↦ rw first (
          compute-Kept _ (add_protect-IsSorted infos m t.protect_mutexes k.sorted) k.user k.waiters)
      | inr later ↦ rw later (record {
        sorted = add_protect-IsSorted infos m t.protect_mutexes k.sorted;
        user = k.user;
        waiters = k.waiters;
        current =
            k.current
            ∙ ap pack
                (same_first _ _ (sym (first_info-add_protect infos m t.protect_mutexes later)) t);
      })
    ]

    pub protect_unsched-Kept :
        (m : ℕ) (t : Thread) → Kept t → Kept (tb_protect_mutex_unsched sys infos m t)
    unfolding tb_protect_mutex_unsched
    protect_unsched-Kept m t k = elim (Bool-cases (is_first m t.protect_mutexes)) [
      | inl first ↦
          rw first (
            compute-Kept _ (rm_protect-IsSorted infos m t.protect_mutexes k.sorted) k.user
              k.waiters)
      | inr later ↦ rw later (record {
        sorted = rm_protect-IsSorted infos m t.protect_mutexes k.sorted;
        user = k.user;
        waiters = k.waiters;
        current =
            k.current
            ∙ ap pack
                (same_first _ _ (sym (first_info-rm_protect infos m t.protect_mutexes later)) t);
      })
    ]

    pub inherit_add-Kept :
        (has_memory : Bool) (m : ℕ) (t : Thread)
        → Kept t
        → Kept (tb_inherit_mutex_add has_memory m t)
    unfolding tb_inherit_mutex_add
    inherit_add-Kept false m t k = k
    inherit_add-Kept true m t k = record {
      sorted = k.sorted;
      user = k.user;
      waiters = unused-AllSettable m t.inherit_mutexes k.waiters;
      current =
          k.current
          ∙ ap pack (
              effective-merge_all t
              ∙ sym (
                  merge_all-unused (before_waiters infos t) m t.inherit_mutexes
                    (before-IsSettable (unpack t.user_sched_info) t.protect_mutexes settable k.user)
                    k.waiters)
              ∙ sym (effective-merge_all _));
    }

    pub inherit_unsched-Kept :
        (m : ℕ) (t : Thread) → Kept t → Kept (tb_inherit_mutex_unsched sys infos m t)
    unfolding tb_inherit_mutex_unsched unsched_found
    inherit_unsched-Kept m t k = found (find_inherit m t.inherit_mutexes) refl
      where
        found :
            (f : Option InhMutex)
            → find_inherit m t.inherit_mutexes ≡ f
            → Kept (unsched_found sys infos m f t)
        found none e = k
        found (some im) e = elim (Bool-cases (im.sched_info == t.sched_info)) [
          | inl decides ↦ rw decides (
              compute-Kept _ k.sorted k.user (rm_inherit-AllSettable m t.inherit_mutexes k.waiters))
          | inr other ↦ rw other (record {
            sorted = k.sorted;
            user = k.user;
            waiters = rm_inherit-AllSettable m t.inherit_mutexes k.waiters;
            current =
                k.current
                ∙ ap pack (
                    effective-merge_all t
                    ∙ sym (
                        merge_all-rm_inherit (before_waiters infos t) m im t.inherit_mutexes e (λ d.
                          differs im t.sched_info other
                            (k.current ∙ ap pack (effective-merge_all t ∙ d))
                            (find_inherit-IsSettable m im t.inherit_mutexes k.waiters e)))
                    ∙ sym (effective-merge_all _));
          })
        ]

    pub inherit_sched-Kept :
        (m th : ℕ) (t : Thread)
        → IsSettable (unpack th)
        → Kept t
        → Kept (tb_inherit_mutex_sched sys infos m th t)
    unfolding tb_inherit_mutex_sched sched_found
    inherit_sched-Kept m th t s k = found (find_inherit m t.inherit_mutexes)
      where
        found : (f : Option InhMutex) → Kept (sched_found sys infos m th f t)
        found none = k
        found (some im) = elim (Bool-cases (raises th im.sched_info)) [
          | inl raised ↦ rw raised (
              compute-Kept _ k.sorted k.user
                (set_inherit-AllSettable m th t.inherit_mutexes s k.waiters))
          | inr below ↦ rw below k
        ]
