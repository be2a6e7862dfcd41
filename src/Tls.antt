-- ===== src/Tls.antt =====
-- tb-tls.c: thread-specific data. Each function is one step here; Tls.Race takes
-- tbthread_key_create apart into its shared accesses.
pub mod Keys
pub mod History
mod Values
pub mod Destructors
pub mod Race
mod Tests
use threading_from_scratch.Prelude.{
  ℕ,
  zero,
  suc,
  ◌+◌,
  ◌%◌,
  ◌^◌,
  Bool,
  not,
  ◌&&◌,
  ◌||◌,
  ◌==◌,
  ltb,
  leb,
  if◌then◌else◌,
  Option,
  none,
  some,
  List,
  [],
  ◌∷◌,
  Threads.{put},
  Words.{inc64},
  Outcome.{Outcome, ok, err, einval},
}

-- TBTHREAD_MAX_KEYS
abbrev pub max_keys : ℕ
max_keys = 1024

-- An entry of `keys`, and one of a thread's `tls`; a pointer is a number, and 0 is null.
pub record Key : Type 0 where
  pub seq : ℕ
  pub destructor : ℕ

pub record Slot : Type 0 where
  pub seq : ℕ
  pub value : ℕ

pub record State : Type 0 where
  pub keys : ℕ → Key
  pub tls : (thread key : ℕ) → Slot

-- KEY_UNUSED
abbrev pub key_unused : Key → Bool
key_unused k = k.seq % 2 == 0

-- KEY_ACQUIRE and KEY_RELEASE, with nothing between the read and the compare-and-swap.
abbrev pub next_seq : Key → Key
next_seq k = record k { seq = inc64 k.seq }

-- The loop of tbthread_key_create, `r` rounds from its end, at key `i`.
pub find_unused : ℕ → ℕ → (ℕ → Key) → Option ℕ
find_unused zero i keys = none
find_unused (suc r) i keys =
    let rest = find_unused r (i + 1) keys in if key_unused (keys i) then some i else rest

created : ℕ → State → Option ℕ → State × Option ℕ
created d s none = (s, none)
created d s (some i) = (
  record s { keys = put s.keys i (record { seq = inc64 (s.keys i).seq; destructor = d }) },
  some i,
)

-- The key, or `none` for -ENOMEM.
pub tbthread_key_create : ℕ → State → State × Option ℕ
unfolding created
tbthread_key_create d s = created d s (find_unused max_keys 0 s.keys)

pub tbthread_key_delete : ℕ → State → State × Outcome
tbthread_key_delete k s =
    if leb max_keys k
    then (s, err einval)
    else if not (key_unused (s.keys k))
    then (record s { keys = put s.keys k (next_seq (s.keys k)) }, ok)
    else (s, err einval)

-- By thread `t`.
pub tbthread_getspecific : ℕ → ℕ → State → ℕ
tbthread_getspecific t k s =
    if leb max_keys k || key_unused (s.keys k)
    then 0
    else if (s.tls t k).seq == (s.keys k).seq
    then (s.tls t k).value
    else 0

pub tbthread_setspecific : ℕ → ℕ → ℕ → State → State × Outcome
tbthread_setspecific t k v s =
    if leb max_keys k || key_unused (s.keys k) then (s, err einval) else (
      record s { tls = put s.tls t (put (s.tls t) k (record { seq = (s.keys k).seq; value = v })) },
      ok,
    )

-- Lines 109-110.
abbrev pub has_destructor : State → ℕ → ℕ → Bool
has_destructor s t i =
    not (key_unused (s.keys i))
    && (s.tls t i).seq == (s.keys i).seq
    && not ((s.tls t i).value == 0)
    && not ((s.keys i).destructor == 0)

abbrev pub clear_value : ℕ → ℕ → State → State
clear_value t i s = record s {
  tls = put s.tls t (put (s.tls t) i (record (s.tls t i) { value = 0 }));
}

-- The loop of tb_tls_call_destructors. `run f v` is what a destructor `f` does with a value `v`.
-- With the last state come the calls made, the destructor and its argument, in their order.
pub call_destructors : (run : ℕ → ℕ → State → State) → ℕ → (t i : ℕ) → State → List (ℕ × ℕ) × State
call_destructors run zero t i s = ([], s)
call_destructors run (suc r) t i s =
    let d = (s.keys i).destructor in
    let v = (s.tls t i).value in
    let called = call_destructors run r t (i + 1) (run d v (clear_value t i s)) in
    let passed = call_destructors run r t (i + 1) s in
    if has_destructor s t i then ((d, v) ∷ called.0, called.1) else passed

pub tb_tls_call_destructors : (run : ℕ → ℕ → State → State) → ℕ → State → List (ℕ × ℕ) × State
unfolding call_destructors
tb_tls_call_destructors run t s = call_destructors run max_keys t 0 s
