-- ===== src/Descriptors/Outcomes.antt =====
-- tb-threads.c, lines 332-409: what tbthread_detach and tbthread_join return.
use threading_from_scratch.Prelude.{
  ℕ,
  ◌≡◌,
  ◌≢◌,
  refl,
  ◌⊎◌,
  inl,
  inr,
  true,
  ◌==◌,
  Bool-cases,
  arith,
  Outcome.{Errno, ok, err, esrch, einval, edeadlk},
}
use threading_from_scratch.LinkedList.Links.{has}
use threading_from_scratch.Descriptors.{State, change, tbthread_detach, join_check}

-- The descriptor of a thread that a join has claimed.
abbrev pub claimed_by : (self d : ℕ) → State → State
claimed_by self d s = change d (record (s.desc d) { join_status = 2; joiner = self }) s

pub join_check-cases :
    (self d : ℕ) (s : State)
    → ((e : Errno) × (join_check self d s ≡ (s, err e)))
      ⊎ ((join_check self d s ≡ (claimed_by self d s, ok))
          × (has d s.used ≡ true)
          × (d ≢ self)
          × ((s.desc d).join_status ≢ 0)
          × ((s.desc self).joiner ≢ d)
          × ((s.desc d).joiner ≡ 0))
unfolding join_check
join_check-cases self d s = elim (Bool-cases (d == self)) [
  | inl own ↦ rw own (inl (edeadlk, refl))
  | inr other ↦ rw other (elim (Bool-cases (has d s.used)) [
    | inr unused ↦ rw unused (inl (esrch, refl))
    | inl used ↦ rw used (elim (Bool-cases ((s.desc d).join_status == 0)) [
      | inl detached ↦ rw detached (inl (einval, refl))
      | inr joinable ↦ rw joinable (elim (Bool-cases ((s.desc self).joiner == d)) [
        | inl each_other ↦ rw each_other (inl (edeadlk, refl))
        | inr apart ↦ rw apart (elim (Bool-cases ((s.desc d).joiner == 0)) [
          | inr taken ↦ rw taken (inl (einval, refl))
          | inl open_to ↦
              rw open_to (inr (refl, refl, ground arith, ground arith, ground arith, ground arith))
        ])
      ])
    ])
  ])
]

-- A claimed thread cannot be detached.
claimed-detach :
    (self d : ℕ) (s : State)
    → has d s.used ≡ true
    → tbthread_detach d (claimed_by self d s) ≡ (claimed_by self d s, err einval)
unfolding tbthread_detach
claimed-detach self d s used = rw used (ground arith)

join_check-ok :
    (self d : ℕ) (s : State)
    → has d s.used ≡ true
    → d ≢ self
    → (s.desc d).join_status ≢ 0
    → (s.desc self).joiner ≢ d
    → (s.desc d).joiner ≡ 0
    → join_check self d s ≡ (claimed_by self d s, ok)
unfolding join_check
join_check-ok self d s used other joinable apart open_to = rw used (ground arith)

join_check-each_other :
    (self d : ℕ) (s : State)
    → has self s.used ≡ true
    → d ≢ self
    → (s.desc self).join_status ≢ 0
    → join_check d self (claimed_by self d s) ≡ (claimed_by self d s, err edeadlk)
unfolding join_check
join_check-each_other self d s used other joinable = rw used (ground arith)

-- A thread that is in use, joinable and not joined by another one, and a thread other than it, not
-- null, that it does not join: the second one's check in tbthread_join succeeds; from then on,
-- tbthread_detach of the first one returns -EINVAL, the check of every thread that would join it
-- fails, and the first one is told -EDEADLK if it would join the second one and that is in use
-- and joinable. None of these changes the state.
pub join-claims :
    (self d : ℕ) (s : State)
    → self ≢ 0
    → has d s.used ≡ true
    → d ≢ self
    → (s.desc d).join_status ≢ 0
    → (s.desc self).joiner ≢ d
    → (s.desc d).joiner ≡ 0
    → let t = claimed_by self d s in
      (join_check self d s ≡ (t, ok))
      × (tbthread_detach d t ≡ (t, err einval))
      × ((u : ℕ) → (e : Errno) × (join_check u d t ≡ (t, err e)))
      × (has self s.used ≡ true
          → (s.desc self).join_status ≢ 0
          → join_check d self t ≡ (t, err edeadlk))
join-claims self d s set used other joinable apart open_to = (
  join_check-ok self d s used other joinable apart open_to,
  claimed-detach self d s used,
  λ u. elim (join_check-cases u d (claimed_by self d s)) [
    | inl refused ↦ refused
    | inr (_, _, _, _, _, unclaimed) ↦ absurd (ground arith)
  ],
  λ used' joinable'. join_check-each_other self d s used' other joinable',
)
