-- ===== src/Sched/Lists.antt =====
-- tb-sched.c, lines 42-92: the protect mutexes of a thread, by falling priority ceilings.
use threading_from_scratch.Prelude.{
  ℕ, ◌≤◌, ◌≡◌, refl, false, ◌==◌, ltb, Bool-cases, inl, inr, List, [], ◌∷◌, arith,
}
use threading_from_scratch.Sched.{
  sched_info_priority, add_protect, rm_protect, goes_first, is_first,
}
use threading_from_scratch.Sched.Effective.{All, first_info}

module _ (infos : ℕ → ℕ) where
  abbrev ceiling : ℕ → ℕ
  ceiling m = sched_info_priority (infos m)

  abbrev pub AtMost : ℕ → List ℕ → Type 0
  AtMost p = All (λ m. ceiling m ≤ p)

  abbrev pub IsSorted : List ℕ → Type 0
  IsSorted [] = Unit {0}
  IsSorted (m ∷ ms) = AtMost (ceiling m) ms × IsSorted ms

  pub AtMost_mono : (p q : ℕ) (ms : List ℕ) → p ≤ q → AtMost p ms → AtMost q ms
  AtMost_mono p q [] le a = tt
  AtMost_mono p q (m ∷ ms) le a = (omega (arith, a.0), AtMost_mono p q ms le a.1)

  add_protect-AtMost :
      (m p : ℕ) (ms : List ℕ) → ceiling m ≤ p → AtMost p ms → AtMost p (add_protect infos m ms)
  unfolding add_protect
  add_protect-AtMost m p [] le a = (le, tt)
  add_protect-AtMost m p (x ∷ xs) le a = elim (Bool-cases (ltb (ceiling x) (ceiling m))) [
    | inl here ↦ rw here (le, a)
    | inr later ↦ rw later (a.0, add_protect-AtMost m p xs le a.1)
  ]

  pub add_protect-IsSorted : (m : ℕ) (ms : List ℕ) → IsSorted ms → IsSorted (add_protect infos m ms)
  unfolding add_protect
  add_protect-IsSorted m [] s = (tt, tt)
  add_protect-IsSorted m (x ∷ xs) s = elim (Bool-cases (ltb (ceiling x) (ceiling m))) [
    | inl here ↦ rw here (
      (ground (arith, here), AtMost_mono (ceiling x) (ceiling m) xs (ground (arith, here)) s.0),
      s,
    )
    | inr later ↦ rw later (
      add_protect-AtMost m (ceiling x) xs (ground (arith, later)) s.0,
      add_protect-IsSorted m xs s.1,
    )
  ]

  rm_protect-AtMost : (m p : ℕ) (ms : List ℕ) → AtMost p ms → AtMost p (rm_protect m ms)
  unfolding rm_protect
  rm_protect-AtMost m p [] a = tt
  rm_protect-AtMost m p (x ∷ xs) a = elim (Bool-cases (x == m)) [
    | inl here ↦ rw here a.1
    | inr later ↦ rw later (a.0, rm_protect-AtMost m p xs a.1)
  ]

  pub rm_protect-IsSorted : (m : ℕ) (ms : List ℕ) → IsSorted ms → IsSorted (rm_protect m ms)
  unfolding rm_protect
  rm_protect-IsSorted m [] s = tt
  rm_protect-IsSorted m (x ∷ xs) s = elim (Bool-cases (x == m)) [
    | inl here ↦ rw here s.1
    | inr later ↦ rw later (rm_protect-AtMost m (ceiling x) xs s.0, rm_protect-IsSorted m xs s.1)
  ]

  -- The first mutex stays, unless the operation is at the front.
  pub first_info-add_protect :
      (m : ℕ) (ms : List ℕ)
      → goes_first infos m ms ≡ false
      → first_info infos (add_protect infos m ms) ≡ first_info infos ms
  unfolding add_protect
  first_info-add_protect m [] f = cc
  first_info-add_protect m (x ∷ xs) f = rw f

pub first_info-rm_protect :
    (infos : ℕ → ℕ) (m : ℕ) (ms : List ℕ)
    → is_first m ms ≡ false
    → first_info infos (rm_protect m ms) ≡ first_info infos ms
unfolding rm_protect
first_info-rm_protect infos m [] f = refl
first_info-rm_protect infos m (x ∷ xs) f = rw f
