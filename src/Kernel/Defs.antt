-- ===== src/Kernel/Defs.antt =====
-- What the library relies on of futex(2): who sleeps on a futex word.
use threading_from_scratch.Prelude.{
  ℕ, ◌-◌, ◌^◌, ◌≤◌, ◌<◌, ◌≡◌, Bool, true, false, ◌&&◌, ◌||◌, not, ◌==◌,
}

-- `Queue` is what the kernel keeps for one futex word. The comparison of FUTEX_WAIT with the word
-- is in the callers' models; `sleep` is what follows when it succeeds.
pub record Kernel : Type 1 where
  pub Queue : Type 0
  pub nobody : Queue
  pub sleeping : Queue → ℕ → Bool
  -- FUTEX_WAIT by a thread, the word being as expected
  pub sleep : ℕ → Queue → Queue
  -- a wait that ends without a wake: EINTR, or a spurious return
  pub leave : ℕ → Queue → Queue
  -- FUTEX_WAKE with a number of threads
  pub wake : ℕ → Queue → Queue
  pub sleeping-nobody : (t : ℕ) → sleeping nobody t ≡ false
  pub sleeping-sleep : (t u : ℕ) (q : Queue) → sleeping (sleep t q) u ≡ (t == u || sleeping q u)
  pub sleeping-leave :
      (t u : ℕ) (q : Queue) → sleeping (leave t q) u ≡ (not (t == u) && sleeping q u)
  -- FUTEX_WAKE puts nobody to sleep,
  pub wake_old : (k u : ℕ) (q : Queue) → sleeping (wake k q) u ≡ true → sleeping q u ≡ true
  -- wakes somebody if there is a sleeper,
  pub wake_some :
      (k t : ℕ) (q : Queue)
      → 0 < k
      → sleeping q t ≡ true
      → (u : ℕ) × (sleeping q u ≡ true) × (sleeping (wake k q) u ≡ false)
  -- and wakes everybody if the sleepers are at most as many as it may wake.
  pub wake_all :
      (k m : ℕ) (q : Queue)
      → m ≤ k
      → ((u : ℕ) → sleeping q u ≡ true → u < m)
      → (u : ℕ) → sleeping (wake k q) u ≡ false

-- The counts that the library passes to FUTEX_WAKE: 1 and INT_MAX.
abbrev pub wake_one : ℕ
wake_one = 1

abbrev pub wake_every : ℕ
wake_every = 2 ^ 31 - 1

-- A thread has a number below this one.
abbrev pub max_threads : ℕ
max_threads = 2 ^ 31 - 1
