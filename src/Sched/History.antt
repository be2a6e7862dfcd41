-- ===== src/Sched/History.antt =====
-- tb-sched.c, lines 33-249: any sequence of operations on one thread.
use threading_from_scratch.Prelude.{
  ℕ,
  ◌≤◌,
  ◌≡◌,
  sym,
  subst,
  ap,
  ◌∙◌,
  Bool,
  true,
  false,
  if◌then◌else◌,
  List,
  [],
  ◌∷◌,
  ◌++◌,
  arith,
  not,
  Outcome.{err, esrch},
}
use threading_from_scratch.Sched.{
  sched_info_priority, sched_info_pack, Thread, effective_sched, Scheduler, tb_compute_sched,
  tb_protect_mutex_sched, tb_protect_mutex_unsched, tb_inherit_mutex_add, tb_inherit_mutex_unsched,
  tb_inherit_mutex_sched,
}
use threading_from_scratch.Sched.Effective.{
  All, Some, Meets, requests, effective_sched-Meets, unpack, first_info, inherited,
}
use threading_from_scratch.Sched.Lists.{IsSorted, AtMost, AtMost_mono}
use threading_from_scratch.Sched.Current.{IsSettable, pack-unpack}
use threading_from_scratch.Sched.Params.{known_policy, bad_priority, tbthread_setschedparam}
use threading_from_scratch.Sched.Kept.{
  Grants, Kept, effective-IsSettable, compute-Kept, protect_sched-Kept, protect_unsched-Kept,
  inherit_add-Kept, inherit_unsched-Kept, inherit_sched-Kept,
}

-- An operation on a thread; the numbers are the mutex, and what a thread that waits has.
pub data Op : Type 0 where
  protect_sched : (has_node : Bool) → ℕ → Op
  protect_unsched : ℕ → Op
  inherit_add : (has_memory : Bool) → ℕ → Op
  inherit_unsched : ℕ → Op
  inherit_sched : (m th : ℕ) → Op
  setschedparam : (known : Bool) → (policy priority : ℕ) → Op

module _ (sys : Scheduler) (infos : ℕ → ℕ) where
  pub apply : Op → Thread → Thread
  unfolding tb_protect_mutex_sched tb_protect_mutex_unsched tb_inherit_mutex_add
      tb_inherit_mutex_unsched tb_inherit_mutex_sched tbthread_setschedparam
  apply (protect_sched has_node m) t = tb_protect_mutex_sched sys infos has_node m t
  apply (protect_unsched m) t = tb_protect_mutex_unsched sys infos m t
  apply (inherit_add has_memory m) t = tb_inherit_mutex_add has_memory m t
  apply (inherit_unsched m) t = tb_inherit_mutex_unsched sys infos m t
  apply (inherit_sched m th) t = tb_inherit_mutex_sched sys infos m th t
  apply (setschedparam known policy priority) t =
      (tbthread_setschedparam sys infos known policy priority t).0

  unfoldable pub apply_all : List Op → Thread → Thread
  unfolding apply
  apply_all [] t = t
  apply_all (o ∷ os) t = apply_all os (apply o t)

abbrev pub OpSettable : Op → Type 0
OpSettable (protect_sched has_node m) = Unit
OpSettable (protect_unsched m) = Unit
OpSettable (inherit_add has_memory m) = Unit
OpSettable (inherit_unsched m) = Unit
OpSettable (inherit_sched m th) = IsSettable (unpack th)
OpSettable (setschedparam known policy priority) = IsSettable (policy, priority)

abbrev pub OpsSettable : List Op → Type 0
OpsSettable [] = Unit
OpsSettable (o ∷ os) = OpSettable o × OpsSettable os

module _ (sys : Scheduler) (infos : ℕ → ℕ) (grants : Grants sys)
    (settable : (m : ℕ) → IsSettable (unpack (infos m))) where
  setschedparam-Kept :
      (known : Bool) (policy priority : ℕ) (t : Thread)
      → IsSettable (policy, priority)
      → Kept infos t
      → Kept infos (tbthread_setschedparam sys infos known policy priority t).0
  unfolding tbthread_setschedparam
  setschedparam-Kept known policy priority t s k =
      let p : known_policy policy ≡ true = ground arith in
      let b : bad_priority priority ≡ false = ground arith in rw (p, b) (by_known known)
    where
      by_known :
          (known : Bool)
          → Kept infos
              (if not known
                then (t, err esrch)
                else tb_compute_sched sys infos
                    (record t { user_sched_info = sched_info_pack policy priority })).0
      by_known false = k
      by_known true =
          compute-Kept infos sys grants settable _ k.sorted
            (subst IsSettable (sym (pack-unpack (policy, priority) s)) s) k.waiters

  apply-Kept :
      (o : Op) (t : Thread) → OpSettable o → Kept infos t → Kept infos (apply sys infos o t)
  unfolding apply
  apply-Kept (protect_sched has_node m) t s k =
      protect_sched-Kept infos sys grants settable has_node m t k
  apply-Kept (protect_unsched m) t s k = protect_unsched-Kept infos sys grants settable m t k
  apply-Kept (inherit_add has_memory m) t s k =
      inherit_add-Kept infos sys grants settable has_memory m t k
  apply-Kept (inherit_unsched m) t s k = inherit_unsched-Kept infos sys grants settable m t k
  apply-Kept (inherit_sched m th) t s k = inherit_sched-Kept infos sys grants settable m th t s k
  apply-Kept (setschedparam known policy priority) t s k =
      setschedparam-Kept known policy priority t s k

  apply_all-Kept :
      (os : List Op) (t : Thread)
      → OpsSettable os
      → Kept infos t
      → Kept infos (apply_all sys infos os t)
  unfolding apply_all
  apply_all-Kept [] t s k = k
  apply_all-Kept (o ∷ os) t s k = apply_all-Kept os (apply sys infos o t) s.1 (apply-Kept o t s.0 k)

-- What a thread runs with: as much as its own request, its first priority protect mutex and its
-- waiters ask for, as high as each ceiling of a protect mutex that it holds, and no invention.
pub record Follows (infos : ℕ → ℕ) (t : Thread) : Type 0 where
  pub meets : All (Meets (unpack t.sched_info)) (requests infos t)
  pub ceilings : AtMost infos (sched_info_priority t.sched_info) t.protect_mutexes
  pub asked : Some (λ x. unpack t.sched_info ≡ unpack x) (requests infos t)

ceilings_met :
    (infos : ℕ → ℕ) (p : ℕ × ℕ) (ms rest : List ℕ)
    → IsSorted infos ms
    → All (Meets p) (first_info infos ms ++ rest)
    → AtMost infos (p.1) ms
ceilings_met infos p [] rest s a = tt
ceilings_met infos p (m ∷ ms) rest s a =
    let met : sched_info_priority (infos m) ≤ p.1 = ground (arith, a) in
    (met, AtMost_mono infos (sched_info_priority (infos m)) p.1 ms met s.0)

pub Kept-Follows :
    (infos : ℕ → ℕ) (t : Thread)
    → ((m : ℕ) → IsSettable (unpack (infos m)))
    → Kept infos t
    → Follows infos t
Kept-Follows infos t settable k =
    let eff = effective-IsSettable infos t settable k.user k.waiters in
    let same = ap unpack k.current ∙ pack-unpack (effective_sched infos t) eff in
    let both =
      subst (λ e. All (Meets e) (requests infos t) × Some (λ x. e ≡ unpack x) (requests infos t))
        (sym same) (effective_sched-Meets infos t) in
    record {
      meets = both.0;
      ceilings =
          ceilings_met infos (unpack t.sched_info) t.protect_mutexes (inherited t.inherit_mutexes)
            k.sorted (both.0.1);
      asked = both.1;
    }

-- On a kernel that grants every valid policy and priority, take a thread whose list of priority
-- protect mutexes falls by their ceilings, whose `sched_info` is what tb_compute_sched makes of its
-- requests, and all of whose requests are valid. After any sequence of operations with valid
-- arguments its scheduling meets its own request, its first priority protect mutex and its waiters,
-- is as high as every ceiling of its priority protect mutexes, and is one of those requests.
pub apply_all-Follows :
    (sys : Scheduler) (infos : ℕ → ℕ) (os : List Op) (t : Thread)
    → Grants sys
    → ((m : ℕ) → IsSettable (unpack (infos m)))
    → OpsSettable os
    → Kept infos t
    → Follows infos (apply_all sys infos os t)
apply_all-Follows sys infos os t grants settable s k =
    Kept-Follows infos _ settable (apply_all-Kept sys infos grants settable os t s k)
