-- ===== src/Tls/Values.antt =====
-- tb-tls.c, lines 60-100: what tbthread_getspecific reads.
use threading_from_scratch.Prelude.{
  ℕ,
  ◌^◌,
  ◌<◌,
  ◌≡◌,
  Bool,
  false,
  not,
  ◌&&◌,
  ◌||◌,
  ◌==◌,
  leb,
  if◌then◌else◌,
  arith,
  Outcome.{ok, err, einval},
}
use threading_from_scratch.Tls.{
  State, max_keys, key_unused, tbthread_getspecific, tbthread_setspecific, tbthread_key_delete,
}

-- A key that is in range and used.
abbrev pub is_usable : State → ℕ → Bool
is_usable s k = not (leb max_keys k || key_unused (s.keys k))

-- tbthread_setspecific succeeds exactly on a usable key. Afterwards its thread reads the value at
-- that key; at any other key, in any other thread, and after a failure every read is as before.
pub getspecific-setspecific :
    (t k v u j : ℕ) (s : State)
    → ((tbthread_setspecific t k v s).1 ≡ (if is_usable s k then ok else err einval))
      × (tbthread_getspecific u j (tbthread_setspecific t k v s).0
          ≡ (if is_usable s k && (t == u && k == j) then v else tbthread_getspecific u j s))
unfolding tbthread_getspecific tbthread_setspecific
getspecific-setspecific t k v u j s = ground arith

-- Where the key's `seq` is a 64-bit number, tbthread_key_delete succeeds exactly on a usable key. Afterwards the key is not usable and reads
-- as null in every thread; at any other key, and after a failure, every read is as before.
pub getspecific-key_delete :
    (k u j : ℕ) (s : State)
    → (s.keys k).seq < 2 ^ 64
    → ((tbthread_key_delete k s).1 ≡ (if is_usable s k then ok else err einval))
      × (is_usable (tbthread_key_delete k s).0 k ≡ false)
      × (tbthread_getspecific u j (tbthread_key_delete k s).0
          ≡ (if is_usable s k && k == j then 0 else tbthread_getspecific u j s))
unfolding tbthread_getspecific tbthread_key_delete
getspecific-key_delete k u j s h = ground arith
