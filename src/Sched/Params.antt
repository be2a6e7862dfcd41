-- ===== src/Sched/Params.antt =====
-- tb-sched.c, lines 251-333: the scheduling that a program asks for. An `int` is its 32-bit word, so
-- a negative one is at least 2^31.
use threading_from_scratch.Prelude.{
  ℕ,
  ◌^◌,
  ◌≡◌,
  refl,
  ap,
  ◌∙◌,
  Bool,
  true,
  false,
  not,
  ◌&&◌,
  ◌||◌,
  ◌==◌,
  ltb,
  leb,
  if◌then◌else◌,
  Option,
  none,
  some,
  [],
  arith,
  Outcome.{Outcome, ok, err, einval, esrch},
}
use threading_from_scratch.Sched.{
  sched_normal, sched_fifo, sched_rr, sched_info_pack, sched_info_policy, sched_info_priority,
  Thread, Scheduler, tb_set_sched, set_if, tb_compute_sched, merge_protect, merge_inherit,
  effective_sched,
}
use threading_from_scratch.Sched.Effective.{unpack}

abbrev pub known_policy : ℕ → Bool
known_policy p = p == sched_normal || p == sched_fifo || p == sched_rr

-- `priority < 0 || priority > 99`
abbrev pub bad_priority : ℕ → Bool
bad_priority p = leb (2 ^ 31) p || ltb 99 p

-- `known` says whether the thread is in `used_desc`.
unfoldable pub tbthread_setschedparam :
    Scheduler → (infos : ℕ → ℕ) → (known : Bool) → (policy priority : ℕ) → Thread → Thread × Outcome
unfolding tb_compute_sched
tbthread_setschedparam sys infos known policy priority t =
    if not (known_policy policy)
    then (t, err einval)
    else if bad_priority priority
    then (t, err einval)
    else if not known
    then (t, err esrch)
    else tb_compute_sched sys infos (record t { user_sched_info = sched_info_pack policy priority })

-- The policy and the priority, or `none` for -ESRCH.
pub tbthread_getschedparam : (known : Bool) → Thread → Option (ℕ × ℕ)
tbthread_getschedparam known t =
    if known then some (sched_info_policy t.sched_info, sched_info_priority t.sched_info) else none

-- The fields of `tbthread_attr_t` that are about scheduling.
pub record Attr : Type 0 where
  pub sched_inherit : ℕ
  pub sched_policy : ℕ
  pub sched_priority : ℕ

pub tbthread_attr_setschedpolicy : ℕ → Attr → Attr × Outcome
tbthread_attr_setschedpolicy policy a =
    if not (known_policy policy) then (a, err einval) else (record a { sched_policy = policy }, ok)

-- Where the priority is good the C function returns no value; it is 0 here.
pub tbthread_attr_setschedpriority : ℕ → Attr → Attr × Outcome
tbthread_attr_setschedpriority priority a =
    if bad_priority priority then (a, err einval) else (record a { sched_priority = priority }, ok)

-- TBTHREAD_INHERIT_SCHED is 1 and TBTHREAD_EXPLICIT_SCHED is 0.
pub tbthread_attr_setinheritsched : ℕ → Attr → Attr × Outcome
tbthread_attr_setinheritsched inheritsched a =
    if not (inheritsched == 1) && not (inheritsched == 0)
    then (a, err einval)
    else (record a { sched_inherit = inheritsched }, ok)

effective-alone :
    (infos : ℕ → ℕ) (t : Thread)
    → t.protect_mutexes ≡ []
    → t.inherit_mutexes ≡ []
    → effective_sched infos t ≡ unpack t.user_sched_info
unfolding effective_sched merge_protect merge_inherit
effective-alone infos t no_protect no_inherit = rw (no_protect, no_inherit)

fields_of_pack :
    (policy priority : ℕ)
    → known_policy policy ≡ true
    → bad_priority priority ≡ false
    → unpack (sched_info_pack policy priority) ≡ (policy, priority)
fields_of_pack policy priority p b = ground arith

compute-granted :
    (sys : Scheduler) (infos : ℕ → ℕ) (policy priority : ℕ) (t : Thread)
    → effective_sched infos t ≡ (policy, priority)
    → sys t.tid policy priority ≡ ok
    → tb_compute_sched sys infos t ≡ (record t { sched_info = sched_info_pack policy priority }, ok)
unfolding tb_compute_sched tb_set_sched set_if
compute-granted sys infos policy priority t e granted = rw (e, granted)

module _ (sys : Scheduler) (infos : ℕ → ℕ) (policy priority : ℕ) where
  -- A thread that holds no priority protect or inherit mutex, for which a valid request is made that
  -- the kernel grants: tbthread_getschedparam then gives that policy and priority.
  pub getschedparam-setschedparam :
      (t : Thread)
      → known_policy policy ≡ true
      → bad_priority priority ≡ false
      → t.protect_mutexes ≡ []
      → t.inherit_mutexes ≡ []
      → sys t.tid policy priority ≡ ok
      → let r = tbthread_setschedparam sys infos true policy priority t in
        (r.1 ≡ ok) × (tbthread_getschedparam true r.0 ≡ some (policy, priority))
  unfolding tbthread_setschedparam tbthread_getschedparam
  getschedparam-setschedparam t p b no_protect no_inherit granted =
      let fields = fields_of_pack policy priority p b in
      let t' = record t { user_sched_info = sched_info_pack policy priority } in
      let alone = effective-alone infos t' no_protect no_inherit ∙ fields in
      rw (p, b, compute-granted sys infos policy priority t' alone granted) (refl, ap some fields)
