-- ===== src/Tls/Race.antt =====
-- tb-tls.c, lines 41-58: tbthread_key_create by two threads, a shared access at a time.
use threading_from_scratch.Prelude.{
  ℕ,
  zero,
  suc,
  ◌+◌,
  ◌^◌,
  ◌<◌,
  ◌≡◌,
  true,
  ◌==◌,
  ltb,
  if◌then◌else◌,
  arith,
  Threads.{put},
}
use threading_from_scratch.Tls.{Key, max_keys, key_unused}
use threading_from_scratch.Prelude.Words.{inc64}

-- Where a thread is in tbthread_key_create, with the key that it is at.
pub data Pc : Type 0 where
  checking : (i : ℕ) → Pc  -- before KEY_UNUSED
  reading : (i : ℕ) → Pc  -- in KEY_ACQUIRE, before the read of `seq`
  swapping : (i seq : ℕ) → Pc  -- in KEY_ACQUIRE, before the compare-and-swap
  acquired : (i : ℕ) → Pc  -- before the store of the destructor
  given : (i : ℕ) → Pc  -- returned, with the key
  failed : Pc  -- returned -ENOMEM

pub create_step : (destructor : ℕ) → (ℕ → Key) → Pc → (ℕ → Key) × Pc
create_step d keys (checking i) =
    if ltb i max_keys
    then (keys, if key_unused (keys i) then reading i else checking (i + 1))
    else (keys, failed)
create_step d keys (reading i) = (keys, swapping i (keys i).seq)
create_step d keys (swapping i seq) =
    if (keys i).seq == seq
    then (put keys i (record (keys i) { seq = inc64 seq }), acquired i)
    else (keys, checking (i + 1))
create_step d keys (acquired i) = (put keys i (record (keys i) { destructor = d }), given i)
create_step d keys p = (keys, p)

-- `r` steps of one thread.
pub create_steps : ℕ → (destructor : ℕ) → (ℕ → Key) → Pc → (ℕ → Key) × Pc
unfolding create_step
create_steps zero d keys p = (keys, p)
create_steps (suc r) d keys p = let (keys', p') = create_step d keys p in create_steps r d keys' p'

-- Two threads come to one unused key in range, whose `seq` is 2 or more below 2^64. The second checks
-- it, the first creates it in its four steps, and then the second goes on: both have been given the
-- same key, and it is unused again.
pub key_given_twice :
    (keys : ℕ → Key) (i d e : ℕ)
    → i < max_keys
    → key_unused (keys i) ≡ true
    → (keys i).seq + 2 < 2 ^ 64
    → let second = create_steps 1 e keys (checking i) in
      let first = create_steps 4 d second.0 (checking i) in
      let again = create_steps 3 e first.0 second.1 in
      (first.1 ≡ given i) × (again.1 ≡ given i) × (key_unused (again.0 i) ≡ true)
unfolding create_steps
key_given_twice keys i d e lt unused fits = ground arith
