-- ===== src/Descriptors/Create.antt =====
-- tb-threads.c, lines 45-115 and 235-327: the main thread, attributes, tbthread_create, and the start of
-- a thread.
use threading_from_scratch.Prelude.{
  ℕ,
  ◌*◌,
  ◌==◌,
  Bool,
  true,
  not,
  if◌then◌else◌,
  Option,
  List,
  [],
  ◌∷◌,
  Outcome.{Errno, Outcome, ok, err},
}
use threading_from_scratch.Sched.{Thread, Scheduler, tb_set_sched, sched_info_pack, sched_normal}
use threading_from_scratch.Sched.Params.{Attr}
use threading_from_scratch.Descriptors.{
  Descriptor, State, Run, faults, blocks, returns, change, rm_first, WaitEnd, wait_for_thread,
  get_descriptor, release_descriptor,
}

-- `tbthread_attr_t`
pub record ThreadAttr : Type 0 where
  pub stack_size : ℕ
  pub joinable : ℕ
  pub sched : Attr

unfoldable pub tbthread_attr_init : ThreadAttr
tbthread_attr_init = record {
  stack_size = 8192 * 1024;
  joinable = 1;
  sched = record { sched_inherit = 1; sched_policy = 0; sched_priority = 0 };
}

unfoldable pub tbthread_attr_setdetachstate : (state : ℕ) → ThreadAttr → ThreadAttr
tbthread_attr_setdetachstate state a =
    if state == 0 then record a { joinable = 0 } else record a { joinable = 1 }

-- TB_START_OK, TB_START_WAIT and TB_START_EXIT
abbrev pub start_ok : ℕ
start_ok = 0

abbrev pub start_wait : ℕ
start_wait = 1

abbrev pub start_exit : ℕ
start_exit = 2

-- start_thread, lines 101-105: whether the user's function is called, by the status that the thread sees
-- first and the one that it sees after its wait.
unfoldable pub start_thread : (first then_seen : ℕ) → Bool
start_thread first then_seen =
    if not (first == start_ok) then not (then_seen == start_exit) else true

-- What a system call gives that returns a value: an error or the value.
pub data Answer : Type 0 where
  refuses : Errno → Answer
  gives : ℕ → Answer

-- What the kernel and malloc answer, in the order of the calls.
pub record Answers : Type 0 where
  pub mapping : Answer
  pub protect : Outcome
  pub fresh : Option ℕ
  pub descriptor_waits : List WaitEnd
  pub clone : Answer
  pub set_sched : Scheduler
  pub exit_waits : List WaitEnd

-- Lines 264-283: a descriptor after memset and the assignments.
abbrev pub new_descriptor : (d stack fn arg : ℕ) → ThreadAttr → (own_info : ℕ) → Descriptor
new_descriptor d stack fn arg a own_info = record {
  self = d;
  stack = stack;
  stack_size = a.stack_size;
  fn = fn;
  arg = arg;
  retval = 0;
  join_status = a.joinable;
  cancel_status = 3;
  joiner = 0;
  start_status = if a.sched.sched_inherit == 0 then start_wait else start_ok;
  sched = record {
    tid = 0;
    sched_info = if a.sched.sched_inherit == 0 then 0 else own_info;
    user_sched_info = 0;
    protect_mutexes = [];
    inherit_mutexes = [];
  };
}

-- The state, `*thread`, and what tbthread_create returns.
abbrev pub Creation : Type 0
Creation = Run (State × ℕ × Outcome)

abbrev pub map_stack : ℕ → State → State
map_stack stack s = record s { stacks = stack ∷ s.stacks }

abbrev pub with_error : ℕ → Errno → Run State → Creation
with_error d e (returns s) = returns (s, d, err e)
with_error d e faults = faults
with_error d e blocks = blocks

-- Lines 323-326.
unfoldable pub create_error : (stack d : ℕ) → Errno → State → Creation
unfolding rm_first release_descriptor
create_error stack d e s =
    with_error d e (release_descriptor d (record s { stacks = rm_first stack s.stacks }))

abbrev pub set_start : ℕ → ℕ → Thread → State → State
set_start d status t s = change d (record (s.desc d) { start_status = status; sched = t }) s

-- Lines 312-321, after tb_set_sched.
unfoldable pub start_or_exit : Answers → (stack d tid : ℕ) → Thread × Outcome → State → Creation
unfolding create_error wait_for_thread
start_or_exit w stack d tid (t, ok) s = returns (set_start d start_ok t s, d, ok)
start_or_exit w stack d tid (t, err e) s =
    if wait_for_thread tid w.exit_waits
    then create_error stack d e (set_start d start_exit t s)
    else blocks

-- Lines 292-321.
unfoldable pub spawn : Answers → ThreadAttr → (stack d : ℕ) → Answer → State → Creation
unfolding create_error start_or_exit tb_set_sched
spawn w a stack d (refuses e) s = create_error stack d e s
spawn w a stack d (gives tid) s =
    let t = record (s.desc d).sched { tid = tid } in
    let s' = change d (record (s.desc d) { sched = t }) s in
    if a.sched.sched_inherit == 0
    then start_or_exit w stack d tid
        (tb_set_sched w.set_sched a.sched.sched_policy a.sched.sched_priority t) s'
    else returns (s', d, ok)

-- Lines 264-321.
unfoldable pub with_descriptor :
    Answers → ThreadAttr → (fn arg self stack : ℕ) → Run (ℕ × State) → Creation
unfolding spawn
with_descriptor w a fn arg self stack faults = faults
with_descriptor w a fn arg self stack blocks = blocks
with_descriptor w a fn arg self stack (returns (d, s)) =
    spawn w a stack d w.clone
      (change d (new_descriptor d stack fn arg a (s.desc self).sched.sched_info) s)

-- Lines 254-326, with a stack.
unfoldable pub with_stack :
    Answers → ThreadAttr → (fn arg self stack : ℕ) → Outcome → State → Creation
unfolding create_error with_descriptor get_descriptor
with_stack w a fn arg self stack ok s =
    with_descriptor w a fn arg self stack (get_descriptor w.fresh w.descriptor_waits s)
with_stack w a fn arg self stack (err e) s = create_error stack 0 e s

unfoldable pub tbthread_create : Answers → ThreadAttr → (fn arg self : ℕ) → State → Creation
unfolding with_stack
tbthread_create w a fn arg self s = elim w.mapping [
  | refuses e ↦ returns (s, 0, err e)
  | gives stack ↦ with_stack w a fn arg self stack w.protect (map_stack stack s)
]

-- Lines 48-54: the descriptor of the main thread, which is in neither list.
unfoldable pub tbthread_init : (d pid : ℕ) → State → State
tbthread_init d pid s =
    change d
      (record {
        self = d;
        stack = 0;
        stack_size = 0;
        fn = 0;
        arg = 0;
        retval = 0;
        join_status = 0;
        cancel_status = 0;
        joiner = 0;
        start_status = 0;
        sched = record {
          tid = pid;
          sched_info = sched_info_pack sched_normal 0;
          user_sched_info = 0;
          protect_mutexes = [];
          inherit_mutexes = [];
        };
      })
      s

unfoldable pub tbthread_equal : (t1 t2 : ℕ) → Bool
tbthread_equal t1 t2 = t1 == t2
