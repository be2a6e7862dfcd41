-- ===== src/Mutex/Attributes.antt =====
-- tb-mutexes.c, lines 303-368 and 394-455: attributes, initialization and ceilings. An `int` is its
-- 32-bit word, so a negative one is at least 2^31.
use threading_from_scratch.Prelude.{
  ℕ,
  ◌^◌,
  ◌≤◌,
  ◌≡◌,
  ◌≢◌,
  refl,
  ◌∙◌,
  inl,
  inr,
  Bool,
  not,
  ◌&&◌,
  ◌||◌,
  ◌==◌,
  Bool-cases,
  ltb,
  leb,
  if◌then◌else◌,
  Option,
  none,
  some,
  List,
  [],
  ◌∷◌,
  arith,
  Outcome.{Outcome, ok, err, einval},
}
use threading_from_scratch.Sched.{Scheduler, sched_fifo, sched_info_pack, sched_info_priority}
use threading_from_scratch.Mutex.{
  Mutex, State, Result, returns, normal, recursive, prio_none, prio_inherit, prio_protect,
  with_mutex, once_locked, take, lock_by_protocol, unlock_by_protocol,
}
use threading_from_scratch.Mutex.Promise.{IsMutex, view}

-- `tbthread_mutexattr_t`
pub record Attr : Type 0 where
  pub type : ℕ
  pub protocol : ℕ
  pub prioceiling : ℕ

abbrev pub tbthread_mutexattr_init : Attr
tbthread_mutexattr_init = record { type = normal; protocol = prio_none; prioceiling = 0 }

pub tbthread_mutexattr_gettype : Attr → ℕ
tbthread_mutexattr_gettype attr = attr.type

-- Where the type is good the C function returns no value; it is 0 here.
pub tbthread_mutexattr_settype : ℕ → Attr → Attr × Outcome
tbthread_mutexattr_settype type attr =
    if leb (2 ^ 31) type || ltb recursive type
    then (attr, err einval)
    else (record attr { type = type }, ok)

-- `ceiling < 0 || ceiling > 99`
abbrev pub bad_ceiling : ℕ → Bool
bad_ceiling c = leb (2 ^ 31) c || ltb 99 c

pub tbthread_mutexattr_setprioceiling : ℕ → Attr → Attr × Outcome
tbthread_mutexattr_setprioceiling ceiling attr =
    if bad_ceiling ceiling then (attr, err einval) else (record attr { prioceiling = ceiling }, ok)

pub tbthread_mutexattr_setprotocol : ℕ → Attr → Attr × Outcome
tbthread_mutexattr_setprotocol protocol attr =
    if not (protocol == prio_none)
      && not (protocol == prio_inherit)
      && not (protocol == prio_protect)
    then (attr, err einval)
    else (record attr { protocol = protocol }, ok)

-- Line 354-355.
abbrev pub first_ceiling : Attr → ℕ
first_ceiling attr =
    if attr.protocol == prio_protect && not (attr.prioceiling == 0)
    then sched_info_pack sched_fifo attr.prioceiling
    else 0

-- `none` is the null pointer.
pub tbthread_mutex_init : Option Attr → Mutex
tbthread_mutex_init none = record {
  futex = 0;
  type = normal;
  protocol = prio_none;
  sched_info = 0;
  owner = 0;
  counter = 0;
}
tbthread_mutex_init (some attr) = record {
  futex = 0;
  type = attr.type;
  protocol = attr.protocol;
  sched_info = first_ceiling attr;
  owner = 0;
  counter = 0;
}

-- The ceiling; the null pointer, for which the function returns -EINVAL, is left out.
pub tbthread_mutex_getprioceiling : Mutex → ℕ
tbthread_mutex_getprioceiling m = sched_info_priority m.sched_info

module _ (sys : Scheduler) (memory : Bool) (a self : ℕ) where
  -- Lines 442-454. The old ceiling is what tbthread_mutex_getprioceiling gives before.
  set_ceiling : ℕ → State → State
  set_ceiling ceiling s =
      with_mutex a (λ m. record m { sched_info = sched_info_pack sched_fifo ceiling }) s

  -- Of a mutex that is not the caller's, lock_normal and unlock_normal go by its protocol.
  pub tbthread_mutex_setprioceiling : ℕ → State → Result
  unfolding set_ceiling
  tbthread_mutex_setprioceiling ceiling s =
      if not ((s.mutexes a).protocol == prio_protect) || bad_ceiling ceiling
      then returns (err einval) s
      else if (s.mutexes a).owner == self
      then returns ok (set_ceiling ceiling s)
      else once_locked (lock_by_protocol sys memory a self (s.mutexes a).protocol s) (λ s.
        once_locked
          (unlock_by_protocol sys memory a self (s.mutexes a).protocol (set_ceiling ceiling s))
          (returns ok))

-- A call that sets an attribute.
pub data Setting : Type 0 where
  type protocol prioceiling : ℕ → Setting

pub set_all : List Setting → Attr → Attr
unfolding tbthread_mutexattr_settype tbthread_mutexattr_setprotocol
    tbthread_mutexattr_setprioceiling
set_all [] attr = attr
set_all (type t ∷ xs) attr = set_all xs (tbthread_mutexattr_settype t attr).0
set_all (protocol p ∷ xs) attr = set_all xs (tbthread_mutexattr_setprotocol p attr).0
set_all (prioceiling c ∷ xs) attr = set_all xs (tbthread_mutexattr_setprioceiling c attr).0

-- Attributes that the calls can make.
abbrev IsAttr : Attr → Type 0
IsAttr attr = (attr.type ≤ 2) × (3 ≤ attr.protocol) × (attr.protocol ≤ 5) × (attr.prioceiling ≤ 99)

set_all-IsAttr : (xs : List Setting) (attr : Attr) → IsAttr attr → IsAttr (set_all xs attr)
unfolding set_all
set_all-IsAttr [] attr is = is
set_all-IsAttr (type t ∷ xs) attr is = set_all-IsAttr xs _ (ground (arith, is))
set_all-IsAttr (protocol p ∷ xs) attr is = set_all-IsAttr xs _ (ground (arith, is))
set_all-IsAttr (prioceiling c ∷ xs) attr is = set_all-IsAttr xs _ (ground (arith, is))

-- Whatever attribute calls are made after tbthread_mutexattr_init, tbthread_mutex_init makes a
-- well-formed mutex that no thread has, and its ceiling is the one of the attributes if its protocol
-- is TBTHREAD_PRIO_PROTECT, and 0 otherwise.
pub initialized-IsMutex :
    (xs : List Setting)
    → let attr = set_all xs tbthread_mutexattr_init in
      let m = tbthread_mutex_init (some attr) in
      IsMutex m
      × (m.owner ≡ 0)
      × (tbthread_mutex_getprioceiling m
          ≡ (if attr.protocol == prio_protect then attr.prioceiling else 0))
unfolding tbthread_mutex_init tbthread_mutex_getprioceiling
initialized-IsMutex xs =
    let attr = set_all xs tbthread_mutexattr_init in
    let is : IsAttr attr =
      set_all-IsAttr xs tbthread_mutexattr_init
        (omega arith, omega arith, omega arith, omega arith) in
    (
      record {
        known_type = is.0;
        known_protocol = (is.1, is.2);
        owned = inr (refl, refl);
        counted = λ r. (λ e. refl, λ e. refl);
        count_fits = omega arith;
      },
      refl,
      ground (arith, is.3),
    )

lock_protect-view :
    (sys : Scheduler) (memory : Bool) (a self : ℕ) (s : State) (f : State → Result)
    → IsMutex (s.mutexes a)
    → (s.mutexes a).owner ≢ 0
    → view a (once_locked (lock_by_protocol sys memory a self 5 s) f) ≡ some (none, s.mutexes a)
unfolding lock_by_protocol
lock_protect-view sys memory a self s f is o = ground (arith, is.owned)

set_free-view :
    (sys : Scheduler) (memory : Bool) (a self ceiling : ℕ) (s : State)
    → IsMutex (s.mutexes a)
    → (s.mutexes a).protocol ≡ 5
    → self ≢ 0
    → (s.mutexes a).owner ≡ 0
    → view a (
        once_locked (lock_by_protocol sys memory a self 5 s) (λ s'.
          once_locked
            (unlock_by_protocol sys memory a self
              (s'.mutexes a).protocol
              (set_ceiling sys memory a self ceiling s'))
            (returns ok)))
      ≡ some (some ok, record (s.mutexes a) { sched_info = sched_info_pack sched_fifo ceiling })
unfolding lock_by_protocol unlock_by_protocol take set_ceiling
set_free-view sys memory a self ceiling s is p set o = ground (arith, is.owned)

-- On a well-formed mutex, a ceiling that is out of range, or a protocol that is not
-- TBTHREAD_PRIO_PROTECT, gives -EINVAL and changes nothing. Otherwise tbthread_mutex_setprioceiling
-- waits while another thread has the mutex, and of one that is free or the caller's it sets the
-- ceiling and leaves all else of it as it is.
pub setprioceiling-view :
    (sys : Scheduler) (memory : Bool) (a self ceiling : ℕ) (s : State)
    → IsMutex (s.mutexes a)
    → self ≢ 0
    → view a (tbthread_mutex_setprioceiling sys memory a self ceiling s)
      ≡ some (
          let m = s.mutexes a in
          if not (m.protocol == prio_protect) || bad_ceiling ceiling
          then (some (err einval), m)
          else if m.owner == 0 || m.owner == self
          then (some ok, record m { sched_info = sched_info_pack sched_fifo ceiling })
          else (none, m))
unfolding tbthread_mutex_setprioceiling take
setprioceiling-view sys memory a self ceiling s is set =
    elim (Bool-cases ((s.mutexes a).protocol == prio_protect)) [
      | inr other ↦ rw other
      | inl protect ↦ elim (Bool-cases (bad_ceiling ceiling)) [
        | inl bad ↦ rw (protect, bad)
        | inr good ↦ elim (Bool-cases ((s.mutexes a).owner == self)) [
          | inl own ↦ rw (protect, good, own) (ground arith)
          | inr not_own ↦
              let p : (s.mutexes a).protocol ≡ 5 = ground (arith, protect) in
              elim (Bool-cases ((s.mutexes a).owner == 0)) [
                | inl free ↦
                    rw (p, good, not_own, free)
                      (set_free-view sys memory a self ceiling s is p set (ground (arith, free))
                        ∙ cc)
                | inr taken ↦
                    rw (p, good, not_own, taken)
                      (lock_protect-view sys memory a self s _ is (ground (arith, taken)) ∙ cc)
              ]
        ]
      ]
    ]
