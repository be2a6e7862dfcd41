-- ===== src/Prelude/Threads.antt =====
-- Families indexed by thread: replacing one thread's entry, and the number of threads below a bound
-- whose entry passes a test.
use Prim.Native.Nat.{ℕ, zero, suc, ◌+◌, ◌≤◌, ◌<◌}
use mathlib.Core.Path.{◌≡◌, refl}
use mathlib.Core.Logic.{◌≢◌, inl, inr}
use mathlib.Core.Bool.{Bool, true, false}
use native.Mathlib.Omega.{arith}
use threading_from_scratch.Prelude.Tests.{◌==◌, if◌then◌else◌, Bool-cases}

abbrev pub put {ℓ} : {A : Type ℓ} → (ℕ → A) → ℕ → A → ℕ → A
put f i a j = if i == j then a else f j

abbrev pub bit : Bool → ℕ
bit true = 1
bit false = 0

module _ {ℓ} {A : Type ℓ} (test : A → Bool) where
  pub tally : (ℕ → A) → ℕ → ℕ
  tally f zero = 0
  tally f (suc n) = bit (test (f n)) + tally f n

  tally-put_outside : (f : ℕ → A) (n i : ℕ) (a : A) → n ≤ i → tally (put f i a) n ≡ tally f n
  unfolding tally
  tally-put_outside f zero i a h = refl
  tally-put_outside f (suc n) i a h = ground (arith, tally-put_outside f n i a)

  pub tally-put :
      (f : ℕ → A) (n i : ℕ) (a : A)
      → i < n
      → tally (put f i a) n + bit (test (f i)) ≡ tally f n + bit (test a)
  unfolding tally
  tally-put f zero i a h = absurd (omega arith)
  tally-put f (suc n) i a h = elim (Bool-cases (i == n)) [
    | inl e ↦ ground (arith, tally-put_outside f n i a)
    | inr e ↦ ground (arith, tally-put f n i a)
  ]

  pub tally-none : (f : ℕ → A) (n : ℕ) → ((i : ℕ) → test (f i) ≡ false) → tally f n ≡ 0
  unfolding tally
  tally-none f zero h = refl
  tally-none f (suc n) h = ground (arith, tally-none f n h, h n)

  pub tally-le : (f : ℕ → A) (n : ℕ) → tally f n ≤ n
  unfolding tally
  tally-le f zero = omega arith
  tally-le f (suc n) = ground (arith, tally-le f n)

  pub tally_pos : (f : ℕ → A) (n i : ℕ) → i < n → test (f i) ≡ true → 1 ≤ tally f n
  unfolding tally
  tally_pos f zero i h t = absurd (omega arith)
  tally_pos f (suc n) i h t = ground (arith, tally_pos f n i)

  -- Two threads that pass count twice.
  pub tally_two :
      (f : ℕ → A) (n i j : ℕ)
      → i < n
      → j < n
      → i ≢ j
      → test (f i) ≡ true
      → test (f j) ≡ true
      → 2 ≤ tally f n
  unfolding tally
  tally_two f zero i j hi hj d ti tj = absurd (omega arith)
  tally_two f (suc n) i j hi hj d ti tj =
      ground (arith, tally_two f n i j, tally_pos f n i, tally_pos f n j)

  -- Whom a positive count counts.
  pub tally_find : (f : ℕ → A) (n : ℕ) → 0 < tally f n → (i : ℕ) × (i < n) × (test (f i) ≡ true)
  unfolding tally
  tally_find f zero h = absurd (omega arith)
  tally_find f (suc n) h = elim (Bool-cases (test (f n))) [
    | inl e ↦ (n, omega arith, e)
    | inr e ↦ let (i, lt, t) = tally_find f n (ground arith) in (i, omega arith, t)
  ]

-- The same with the numbers themselves.
abbrev pub count : (ℕ → Bool) → ℕ → ℕ
count p n = tally p (λ i. i) n

-- A test that all threads which pass another one pass too,
pub count_le :
    (p q : ℕ → Bool) (n : ℕ) → ((j : ℕ) → j < n → p j ≡ true → q j ≡ true) → count p n ≤ count q n
unfolding tally
count_le p q zero h = omega arith
count_le p q (suc n) h = ground (arith, count_le p q n (λ j lt. h j (omega arith)), h n)

-- and one that all but one do.
pub count_but :
    (p q : ℕ → Bool) (n i : ℕ)
    → i < n
    → ((j : ℕ) → j < n → i ≢ j → p j ≡ true → q j ≡ true)
    → count p n + bit (q i) ≤ count q n + bit (p i)
unfolding tally
count_but p q zero i lt h = absurd (omega arith)
count_but p q (suc n) i lt h = elim (Bool-cases (i == n)) [
  | inl e ↦
      let same : i ≡ n = ground arith in
      let rest = count_le p q n (λ j below. h j (omega arith) (λ d. omega arith)) in
      ground (arith, rest)
  | inr e ↦
      let rest = count_but p q n i (ground arith) (λ j below. h j (omega arith)) in
      ground (arith, rest, h n (omega arith))
]

pub tally-count {ℓ} :
    {A : Type ℓ} (test : A → Bool) (f : ℕ → A) (n : ℕ) → tally test f n ≡ count (λ i. test (f i)) n
unfolding tally
tally-count test f zero = refl
tally-count test f (suc n) = ground (arith, tally-count test f n)
