-- ===== src/Tls/Destructors.antt =====
-- tb-tls.c, lines 102-116: which destructors run when a thread ends.
use threading_from_scratch.Prelude.{
  ℕ, zero, suc, ◌+◌, ◌<◌, ◌≤◌, ◌≡◌, ◌≢◌, refl, sym, ap, not, Bool, true, ◌∙◌, ◌&&◌, ◌==◌, ltb, leb,
  if◌then◌else◌, Bool-cases, inl, inr, List, [], ◌∷◌, arith,
}
use threading_from_scratch.Tls.{
  State, max_keys, has_destructor, clear_value, call_destructors, tb_tls_call_destructors,
  tbthread_getspecific,
}

-- The calls are of destructors, on values that are set.
abbrev pub AllSet : List (ℕ × ℕ) → Type 0
AllSet [] = Unit {0}
AllSet ((d, v) ∷ cs) = (d ≢ 0) × (v ≢ 0) × AllSet cs

call_destructors-AllSet :
    (run : ℕ → ℕ → State → State) (r t i : ℕ) (s : State) → AllSet (call_destructors run r t i s).0
unfolding call_destructors
call_destructors-AllSet run zero t i s = tt
call_destructors-AllSet run (suc r) t i s = elim (Bool-cases (has_destructor s t i)) [
  | inl has ↦
      rw has (ground (arith, has), ground (arith, has), call_destructors-AllSet run r t (i + 1) _)
  | inr none ↦ rw none (call_destructors-AllSet run r t (i + 1) s)
]

-- Whatever the destructors do, also to the keys and the data, a null destructor is never called, and
-- no destructor is called with a null value.
pub destructors-AllSet :
    (run : ℕ → ℕ → State → State) (t : ℕ) (s : State) → AllSet (tb_tls_call_destructors run t s).0
unfolding tb_tls_call_destructors
destructors-AllSet run t s = call_destructors-AllSet run max_keys t 0 s

-- A thread has to give up what tbthread_getspecific finds, if the key has a destructor.
abbrev pub has_due : State → ℕ → ℕ → Bool
has_due s t i = not (tbthread_getspecific t i s == 0) && not ((s.keys i).destructor == 0)

has_destructor-due : (s : State) (t i : ℕ) → i < max_keys → has_destructor s t i ≡ has_due s t i
unfolding tbthread_getspecific
has_destructor-due s t i lt = ground arith

getspecific_due :
    (s : State) (t i : ℕ) → has_due s t i ≡ true → (s.tls t i).value ≡ tbthread_getspecific t i s
unfolding tbthread_getspecific
getspecific_due s t i has = ground arith

-- The keys from `i` on, `r` of them, whose value a thread has to give up, in their order.
abbrev pub due : ℕ → ℕ → ℕ → State → List (ℕ × ℕ)
due zero t i s = []
due (suc r) t i s =
    if has_due s t i
    then ((s.keys i).destructor, tbthread_getspecific t i s) ∷ due r t (i + 1) s
    else due r t (i + 1) s

due_clear : (r t i j : ℕ) (s : State) → i < j → due r t j (clear_value t i s) ≡ due r t j s
unfolding tbthread_getspecific
due_clear zero t i j s lt = refl
due_clear (suc r) t i j s lt = ground (arith, due_clear r t i (j + 1) s)

-- A destructor that touches neither the keys nor the data.
abbrev pub leave : ℕ → ℕ → State → State
leave d v s = s

call_destructors-due :
    (r t i : ℕ) (s : State) → i + r ≤ max_keys → (call_destructors leave r t i s).0 ≡ due r t i s
unfolding call_destructors
call_destructors-due zero t i s le = refl
call_destructors-due (suc r) t i s le =
    let same = has_destructor-due s t i (omega arith) in
    elim (Bool-cases (has_due s t i)) [
      | inl has ↦
          rw (same, has, sym (getspecific_due s t i has))
            (ap (λ cs. ((s.keys i).destructor, (s.tls t i).value) ∷ cs)
              (call_destructors-due r t (i + 1) (clear_value t i s) (omega arith)
                ∙ due_clear r t i (i + 1) s (omega arith)))
      | inr none ↦ rw (same, none) (call_destructors-due r t (i + 1) s (omega arith))
    ]

call_destructors-value :
    (r t i u j : ℕ) (s : State)
    → i + r ≤ max_keys
    → ((call_destructors leave r t i s).1.tls u j).value
      ≡ (if t == u && (leb i j && (ltb j (i + r) && has_due s t j)) then 0 else (s.tls u j).value)
unfolding call_destructors tbthread_getspecific
call_destructors-value zero t i u j s le = ground arith
call_destructors-value (suc r) t i u j s le = elim (Bool-cases (has_destructor s t i)) [
  | inl has ↦
      rw has
        (call_destructors-value r t (i + 1) u j (clear_value t i s) (omega arith) ∙ ground arith)
  | inr none ↦ rw none (call_destructors-value r t (i + 1) u j s (omega arith) ∙ ground arith)
]

-- If the destructors leave the keys and the data alone, they are called exactly for the keys with a
-- destructor at which tbthread_getspecific gives the thread a value that is not null, with this value,
-- once each, in the order of the keys; the values of the thread's slots there are null afterwards, and
-- those of all other slots are as before.
pub destructors-due :
    (t : ℕ) (s : State)
    → ((tb_tls_call_destructors leave t s).0 ≡ due max_keys t 0 s)
      × ((u j : ℕ)
          → ((tb_tls_call_destructors leave t s).1.tls u j).value
            ≡ (if t == u && (ltb j max_keys && has_due s t j) then 0 else (s.tls u j).value))
unfolding tb_tls_call_destructors
destructors-due t s = (
  call_destructors-due max_keys t 0 s (omega arith),
  λ u j. call_destructors-value max_keys t 0 u j s (omega arith) ∙ ground arith,
)
