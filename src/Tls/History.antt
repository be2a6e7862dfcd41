-- ===== src/Tls/History.antt =====
-- tb-tls.c, lines 35-100: a key that is given again shows nothing of its earlier life.
use threading_from_scratch.Prelude.{
  ℕ, ◌+◌, ◌^◌, ◌≤◌, ◌<◌, ◌≡◌, Option, none, some, List, [], ◌∷◌, length, arith,
}
use threading_from_scratch.Tls.{
  State, max_keys, find_unused, created, tbthread_key_create, tbthread_key_delete,
  tbthread_setspecific, tbthread_getspecific,
}

pub data Call : Type 0 where
  create : (destructor : ℕ) → Call
  delete : (key : ℕ) → Call
  set : (thread key value : ℕ) → Call

unfoldable pub call : Call → State → State
call (create d) s = (tbthread_key_create d s).0
call (delete k) s = (tbthread_key_delete k s).0
call (set t k v) s = (tbthread_setspecific t k v s).0

unfoldable pub calls : List Call → State → State
unfolding call
calls [] s = s
calls (c ∷ cs) s = calls cs (call c s)

-- Static data, and descriptors after a memset.
abbrev pub no_keys : State
no_keys = record {
  keys = λ k. record { seq = 0; destructor = 0 };
  tls = λ t k. record { seq = 0; value = 0 };
}

-- No thread is ahead of a key, and `n` calls have moved no key further than that.
abbrev Behind : ℕ → State → Type 0
Behind n s = (t k : ℕ) → ((s.tls t k).seq ≤ (s.keys k).seq) × ((s.keys k).seq ≤ n)

created-Behind :
    (n d : ℕ) (s : State) (o : Option ℕ)
    → n + 1 < 2 ^ 64
    → Behind n s
    → Behind (n + 1) (created d s o).0
unfolding created
created-Behind n d s none fits b t k = ground (arith, b t k)
created-Behind n d s (some i) fits b t k = ground (arith, b t k)

call-Behind :
    (n : ℕ) (c : Call) (s : State) → n + 1 < 2 ^ 64 → Behind n s → Behind (n + 1) (call c s)
unfolding call tbthread_key_create tbthread_key_delete tbthread_setspecific
call-Behind n (create d) s fits b = created-Behind n d s (find_unused max_keys 0 s.keys) fits b
call-Behind n (delete k) s fits b = λ t j. ground (arith, b t j, b t k)
call-Behind n (set u k v) s fits b = λ t j. ground (arith, b t j)

calls-Behind :
    (n : ℕ) (cs : List Call) (s : State)
    → n + length cs < 2 ^ 64
    → Behind n s
    → Behind (n + length cs) (calls cs s)
unfolding calls
calls-Behind n [] s fits b t k = omega (arith, b t k)
calls-Behind n (c ∷ cs) s fits b t k = omega (
  arith,
  calls-Behind (n + 1) cs (call c s) (omega arith) (call-Behind n c s (omega arith) b) t k,
)

created_null :
    (n d i u : ℕ) (s : State) (o : Option ℕ)
    → n + 1 < 2 ^ 64
    → Behind n s
    → (created d s o).1 ≡ some i
    → tbthread_getspecific u i (created d s o).0 ≡ 0
unfolding created tbthread_getspecific
created_null n d i u s none fits b e = cc
created_null n d i u s (some j) fits b e = ground (arith, b u j)

-- After any history of fewer than 2^64 - 1 creations, deletions and writes, in any threads, a key
-- that tbthread_key_create gives reads as null in every thread, also if it was used before.
pub new_key_null :
    (cs : List Call) (d i u : ℕ)
    → length cs + 1 < 2 ^ 64
    → (tbthread_key_create d (calls cs no_keys)).1 ≡ some i
    → tbthread_getspecific u i (tbthread_key_create d (calls cs no_keys)).0 ≡ 0
unfolding tbthread_key_create
new_key_null cs d i u fits e =
    created_null (length cs) d i u (calls cs no_keys)
      (find_unused max_keys 0 (calls cs no_keys).keys) fits
      (λ t k. omega (arith, calls-Behind 0 cs no_keys (omega arith) (λ t k. omega arith) t k)) e
