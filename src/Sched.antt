-- ===== src/Sched.antt =====
-- tb-sched.c: the scheduling of a thread, as its owner, its priority protect mutexes and the waiters
-- of its priority inherit mutexes ask for. Each function runs under the thread's `lock`, as one step.
pub mod Effective
mod Lists
pub mod Current
pub mod Waiters
pub mod Params
pub mod Kept
pub mod History
pub mod Elements
mod Tests
use threading_from_scratch.Prelude.{
  ℕ,
  suc,
  ◌+◌,
  ◌*◌,
  ◌/◌,
  ◌%◌,
  ◌^◌,
  Bool,
  true,
  false,
  not,
  ◌&&◌,
  ◌==◌,
  ltb,
  if◌then◌else◌,
  Option,
  none,
  some,
  List,
  [],
  ◌∷◌,
  ◌++◌,
  Outcome.{Outcome, ok, err},
}

-- The policies of linux/sched.h.
abbrev pub sched_normal : ℕ
sched_normal = 0

abbrev pub sched_fifo : ℕ
sched_fifo = 1

abbrev pub sched_rr : ℕ
sched_rr = 2

-- SCHED_INFO_PACK into a uint16_t. The priority is below 256 wherever the library packs, and the
-- low byte of the shifted policy is 0, so `|` is a sum.
abbrev pub sched_info_pack : (policy priority : ℕ) → ℕ
sched_info_pack policy priority = (policy * 256 + priority) % 2 ^ 16

abbrev pub sched_info_policy : ℕ → ℕ
sched_info_policy info = info / 256

abbrev pub sched_info_priority : ℕ → ℕ
sched_info_priority info = info % 256

-- `struct inh_mutex`
pub record InhMutex : Type 0 where
  pub mutex : ℕ
  pub sched_info : ℕ

-- The fields of a `struct tbthread` that scheduling uses; a mutex is its address.
pub record Thread : Type 0 where
  pub tid : ℕ
  pub sched_info : ℕ
  pub user_sched_info : ℕ
  pub protect_mutexes : List ℕ
  pub inherit_mutexes : List InhMutex

-- Lines 220-225 and 239-244: the policy and priority so far, against those of one more mutex.
unfoldable pub merge : ℕ × ℕ → ℕ → ℕ × ℕ
merge (policy, priority) info =
    if ltb priority (sched_info_priority info)
    then (sched_info_policy info, sched_info_priority info)
    else if sched_info_priority info == priority && policy == sched_rr
    then (sched_info_policy info, priority)
    else (policy, priority)

unfoldable pub merge_inherit : ℕ × ℕ → List InhMutex → ℕ × ℕ
unfolding merge
merge_inherit p [] = p
merge_inherit p (im ∷ ims) = merge_inherit (merge p im.sched_info) ims

-- `infos` holds the `sched_info` of each mutex.
unfoldable pub merge_protect : (infos : ℕ → ℕ) → ℕ × ℕ → List ℕ → ℕ × ℕ
unfolding merge
merge_protect infos p [] = p
merge_protect infos p (m ∷ ms) = merge p (infos m)

-- Lines 206-246.
unfoldable pub effective_sched : (infos : ℕ → ℕ) → Thread → ℕ × ℕ
unfolding merge_protect merge_inherit
effective_sched infos t =
    merge_inherit
      (merge_protect infos
        (sched_info_policy t.user_sched_info, sched_info_priority t.user_sched_info)
        t.protect_mutexes)
      t.inherit_mutexes

-- sched_setscheduler(2): 0 or an error, from a thread's number, a policy and a priority.
abbrev pub Scheduler : Type 0
Scheduler = (tid policy priority : ℕ) → Outcome

unfoldable pub set_if : Outcome → (policy priority : ℕ) → Thread → Thread × Outcome
set_if ok policy priority t = (record t { sched_info = sched_info_pack policy priority }, ok)
set_if (err e) policy priority t = (t, err e)

unfoldable pub tb_set_sched : Scheduler → (policy priority : ℕ) → Thread → Thread × Outcome
unfolding set_if
tb_set_sched sys policy priority t = set_if (sys t.tid policy priority) policy priority t

unfoldable pub tb_compute_sched : Scheduler → (infos : ℕ → ℕ) → Thread → Thread × Outcome
unfolding tb_set_sched
tb_compute_sched sys infos t =
    let (policy, priority) = effective_sched infos t in tb_set_sched sys policy priority t

-- list_add_here with mutex_prio_smaller: before the first mutex of a smaller priority.
unfoldable pub add_protect : (infos : ℕ → ℕ) → ℕ → List ℕ → List ℕ
add_protect infos m [] = m ∷ []
add_protect infos m (x ∷ xs) =
    if ltb (sched_info_priority (infos x)) (sched_info_priority (infos m))
    then m ∷ x ∷ xs
    else x ∷ add_protect infos m xs

-- `node->prev == &owner->protect_mutexes`, of the first node of the mutex.
abbrev pub is_first : ℕ → List ℕ → Bool
is_first m [] = false
is_first m (x ∷ xs) = x == m

-- list_find_elem and list_rm: without the first node of the mutex.
unfoldable pub rm_protect : ℕ → List ℕ → List ℕ
rm_protect m [] = []
rm_protect m (x ∷ xs) = if x == m then xs else x ∷ rm_protect m xs

-- Whether `node->prev` is then the head of the list.
abbrev pub goes_first : (infos : ℕ → ℕ) → ℕ → List ℕ → Bool
goes_first infos m [] = true
goes_first infos m (x ∷ xs) = ltb (sched_info_priority (infos x)) (sched_info_priority (infos m))

-- `has_node` says whether malloc gives a node.
pub tb_protect_mutex_sched : Scheduler → (infos : ℕ → ℕ) → (has_node : Bool) → ℕ → Thread → Thread
unfolding tb_compute_sched add_protect
tb_protect_mutex_sched sys infos has_node m t =
    let t' = record t { protect_mutexes = add_protect infos m t.protect_mutexes } in
    if has_node
    then if goes_first infos m t.protect_mutexes then (tb_compute_sched sys infos t').0 else t'
    else t

pub tb_protect_mutex_unsched : Scheduler → (infos : ℕ → ℕ) → ℕ → Thread → Thread
unfolding tb_compute_sched rm_protect
tb_protect_mutex_unsched sys infos m t =
    let t' = record t { protect_mutexes = rm_protect m t.protect_mutexes } in
    if is_first m t.protect_mutexes then (tb_compute_sched sys infos t').0 else t'

-- `has_memory` says whether malloc gives both the node and the element.
unfoldable pub tb_inherit_mutex_add : (has_memory : Bool) → ℕ → Thread → Thread
tb_inherit_mutex_add has_memory m t =
    if has_memory
    then record t {
      inherit_mutexes = t.inherit_mutexes ++ (record { mutex = m; sched_info = 0 }) ∷ [];
    }
    else t

-- list_find_elem_func with mutex_equal.
unfoldable pub find_inherit : ℕ → List InhMutex → Option InhMutex
find_inherit m [] = none
find_inherit m (im ∷ ims) = let rest = find_inherit m ims in if m == im.mutex then some im else rest

pub rm_inherit : ℕ → List InhMutex → List InhMutex
rm_inherit m [] = []
rm_inherit m (im ∷ ims) = if m == im.mutex then ims else im ∷ rm_inherit m ims

unsched_found : Scheduler → (infos : ℕ → ℕ) → ℕ → Option InhMutex → Thread → Thread
unfolding tb_compute_sched
unsched_found sys infos m none t = t
unsched_found sys infos m (some im) t =
    let t' = record t { inherit_mutexes = rm_inherit m t.inherit_mutexes } in
    if im.sched_info == t.sched_info then (tb_compute_sched sys infos t').0 else t'

pub tb_inherit_mutex_unsched : Scheduler → (infos : ℕ → ℕ) → ℕ → Thread → Thread
unfolding unsched_found rm_inherit find_inherit
tb_inherit_mutex_unsched sys infos m t =
    unsched_found sys infos m (find_inherit m t.inherit_mutexes) t

-- Lines 180-189.
abbrev pub raises : (th_sched_info im_sched_info : ℕ) → Bool
raises th im =
    if ltb (sched_info_priority im) (sched_info_priority th)
    then true
    else sched_info_priority th == sched_info_priority im && sched_info_policy im == sched_rr

pub set_inherit : ℕ → ℕ → List InhMutex → List InhMutex
set_inherit m info [] = []
set_inherit m info (im ∷ ims) =
    if m == im.mutex then record im { sched_info = info } ∷ ims else im ∷ set_inherit m info ims

sched_found : Scheduler → (infos : ℕ → ℕ) → (m th : ℕ) → Option InhMutex → Thread → Thread
unfolding tb_compute_sched
sched_found sys infos m th none t = t
sched_found sys infos m th (some im) t =
    if raises th im.sched_info
    then (tb_compute_sched sys infos
        (record t { inherit_mutexes = set_inherit m th t.inherit_mutexes })).0
    else t

-- `th` is the `sched_info` of the thread that waits, and `t` the owner.
unfoldable pub tb_inherit_mutex_sched : Scheduler → (infos : ℕ → ℕ) → (m th : ℕ) → Thread → Thread
unfolding sched_found set_inherit find_inherit
tb_inherit_mutex_sched sys infos m th t =
    sched_found sys infos m th (find_inherit m t.inherit_mutexes) t
