-- ===== src/Tls/Keys.antt =====
-- tb-tls.c, lines 35-72: which key tbthread_key_create gives.
use threading_from_scratch.Prelude.{
  ℕ, zero, suc, ◌+◌, ◌≤◌, ◌<◌, ◌≡◌, ◌≢◌, refl, true, false, Bool-cases, inl, inr, Option, none,
  some, arith,
}
use native.Mathlib.Decide.{ℕ_discrete}
use threading_from_scratch.Tls.{
  Key, State, max_keys, key_unused, find_unused, tbthread_key_create, created,
}

-- The first unused key in the range, if there is one.
abbrev IsFirst : ℕ → ℕ → (ℕ → Key) → Option ℕ → Type 0
IsFirst r i keys none = (j : ℕ) → i ≤ j → j < i + r → key_unused (keys j) ≡ false
IsFirst r i keys (some k) =
    (i ≤ k)
    × (k < i + r)
    × (key_unused (keys k) ≡ true)
    × ((j : ℕ) → i ≤ j → j < k → key_unused (keys j) ≡ false)

IsFirst-later :
    (r i : ℕ) (keys : ℕ → Key) (o : Option ℕ)
    → key_unused (keys i) ≡ false
    → IsFirst r (i + 1) keys o
    → IsFirst (suc r) i keys o
IsFirst-later r i keys none used f = λ j le lt. elim (ℕ_discrete i j) [
  | yes e ↦ rw (← e) used
  | no d ↦ f j (omega arith) (omega arith)
]
IsFirst-later r i keys (some k) used (le, lt, unused, f) = (
  omega arith,
  omega arith,
  unused,
  λ j le lt. elim (ℕ_discrete i j) [
    | yes e ↦ rw (← e) used
    | no d ↦ f j (omega arith) (omega arith)
  ],
)

find_unused-IsFirst : (r i : ℕ) (keys : ℕ → Key) → IsFirst r i keys (find_unused r i keys)
unfolding find_unused
find_unused-IsFirst zero i keys = λ j le lt. absurd (omega arith)
find_unused-IsFirst (suc r) i keys = elim (Bool-cases (key_unused (keys i))) [
  | inl unused ↦ rw unused (omega arith, omega arith, unused, λ j le lt. absurd (omega arith))
  | inr used ↦ rw used (IsFirst-later r i keys _ used (find_unused-IsFirst r (i + 1) keys))
]

-- What a call of tbthread_key_create does.
abbrev pub Created : ℕ → State → State × Option ℕ → Type 0
Created d s (s', none) = (s' ≡ s) × ((j : ℕ) → j < max_keys → key_unused (s.keys j) ≡ false)
Created d s (s', some i) =
    (i < max_keys)
    × (key_unused (s.keys i) ≡ true)
    × ((j : ℕ) → j < i → key_unused (s.keys j) ≡ false)
    × (key_unused (s'.keys i) ≡ false)
    × ((s'.keys i).destructor ≡ d)
    × ((j : ℕ) → i ≢ j → s'.keys j ≡ s.keys j)
    × (s'.tls ≡ s.tls)

created-Created :
    (d : ℕ) (s : State) (o : Option ℕ) → IsFirst max_keys 0 s.keys o → Created d s (created d s o)
unfolding created
created-Created d s none f = (refl, λ j lt. f j (omega arith) lt)
created-Created d s (some i) (le, lt, unused, f) = (
  lt,
  unused,
  λ j below. f j (omega arith) below,
  ground arith,
  ground arith,
  λ j d. ground arith,
  refl,
)

-- tbthread_key_create fails exactly when all keys are used, and then changes nothing; otherwise it
-- gives the first unused key, which is used afterwards and has the destructor, and changes no other
-- key and no thread's data.
pub tbthread_key_create-Created : (d : ℕ) (s : State) → Created d s (tbthread_key_create d s)
unfolding tbthread_key_create
tbthread_key_create-Created d s =
    created-Created d s (find_unused max_keys 0 s.keys) (find_unused-IsFirst max_keys 0 s.keys)
