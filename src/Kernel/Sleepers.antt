-- ===== src/Kernel/Sleepers.antt =====
-- A kernel that meets the laws: a bit for each thread, woken in the order of their numbers.
use threading_from_scratch.Prelude.{
  ℕ, zero, suc, ◌≤◌, ◌<◌, ◌≡◌, refl, Bool, true, false, ◌&&◌, ◌||◌, not, ◌==◌, List, [], ◌∷◌,
  get_or, arith,
}
use threading_from_scratch.Kernel.Defs.{Kernel}

abbrev pub asleep : List Bool → ℕ → Bool
asleep q t = get_or q t false

abbrev pub put_asleep : ℕ → List Bool → List Bool
put_asleep zero [] = true ∷ []
put_asleep zero (b ∷ q) = true ∷ q
put_asleep (suc t) [] = false ∷ put_asleep t []
put_asleep (suc t) (b ∷ q) = b ∷ put_asleep t q

abbrev pub take_out : ℕ → List Bool → List Bool
take_out t [] = []
take_out zero (b ∷ q) = false ∷ q
take_out (suc t) (b ∷ q) = b ∷ take_out t q

abbrev pub wake_first : ℕ → List Bool → List Bool
wake_first k [] = []
wake_first k (false ∷ q) = false ∷ wake_first k q
wake_first zero (true ∷ q) = true ∷ wake_first zero q
wake_first (suc k) (true ∷ q) = false ∷ wake_first k q

pub asleep-put_asleep :
    (t u : ℕ) (q : List Bool) → asleep (put_asleep t q) u ≡ (t == u || asleep q u)
asleep-put_asleep zero zero [] = refl
asleep-put_asleep zero (suc u) [] = ground arith
asleep-put_asleep zero zero (b ∷ q) = refl
asleep-put_asleep zero (suc u) (b ∷ q) = ground arith
asleep-put_asleep (suc t) zero [] = ground arith
asleep-put_asleep (suc t) (suc u) [] = ground (arith, asleep-put_asleep t u [])
asleep-put_asleep (suc t) zero (b ∷ q) = ground arith
asleep-put_asleep (suc t) (suc u) (b ∷ q) = ground (arith, asleep-put_asleep t u q)

pub asleep-take_out :
    (t u : ℕ) (q : List Bool) → asleep (take_out t q) u ≡ (not (t == u) && asleep q u)
asleep-take_out t u [] = ground arith
asleep-take_out zero zero (b ∷ q) = refl
asleep-take_out zero (suc u) (b ∷ q) = ground arith
asleep-take_out (suc t) zero (b ∷ q) = ground arith
asleep-take_out (suc t) (suc u) (b ∷ q) = ground (arith, asleep-take_out t u q)

pub asleep-wake_first :
    (k u : ℕ) (q : List Bool) → asleep (wake_first k q) u ≡ true → asleep q u ≡ true
asleep-wake_first k u [] h = h
asleep-wake_first k zero (false ∷ q) h = h
asleep-wake_first k (suc u) (false ∷ q) h = asleep-wake_first k u q h
asleep-wake_first zero zero (true ∷ q) h = refl
asleep-wake_first zero (suc u) (true ∷ q) h = asleep-wake_first zero u q h
asleep-wake_first (suc k) zero (true ∷ q) h = refl
asleep-wake_first (suc k) (suc u) (true ∷ q) h = asleep-wake_first k u q h

pub wake_first_some :
    (k t : ℕ) (q : List Bool)
    → 0 < k
    → asleep q t ≡ true
    → (u : ℕ) × (asleep q u ≡ true) × (asleep (wake_first k q) u ≡ false)
wake_first_some zero t q h e = absurd (omega arith)
wake_first_some (suc k) t [] h e = ground arith
wake_first_some (suc k) zero (false ∷ q) h e = ground arith
wake_first_some (suc k) (suc t) (false ∷ q) h e =
    let (u, before, after) = wake_first_some (suc k) t q h e in (suc u, before, after)
wake_first_some (suc k) t (true ∷ q) h e = (zero, refl, refl)

pub wake_first_all :
    (k m : ℕ) (q : List Bool)
    → m ≤ k
    → ((u : ℕ) → asleep q u ≡ true → u < m)
    → (u : ℕ) → asleep (wake_first k q) u ≡ false
wake_first_all k m [] h below u = refl
wake_first_all k m (false ∷ q) h below zero = refl
wake_first_all k zero (false ∷ q) h below (suc u) =
    wake_first_all k zero q h (λ v e. absurd (omega (arith, below (suc v) e))) u
wake_first_all k (suc m) (false ∷ q) h below (suc u) =
    wake_first_all k m q (omega arith) (λ v e. omega (arith, below (suc v) e)) u
wake_first_all k zero (true ∷ q) h below u = absurd (omega (arith, below zero refl))
wake_first_all zero (suc m) (true ∷ q) h below u = absurd (omega arith)
wake_first_all (suc k) (suc m) (true ∷ q) h below zero = refl
wake_first_all (suc k) (suc m) (true ∷ q) h below (suc u) =
    wake_first_all k m q (omega arith) (λ v e. omega (arith, below (suc v) e)) u

pub asleep-nobody : (t : ℕ) → asleep [] t ≡ false
asleep-nobody t = refl

-- A kernel for examples.
abbrev pub sleepers : Kernel
sleepers = record {
  Queue = List Bool;
  nobody = [];
  sleeping = asleep;
  sleep = put_asleep;
  leave = take_out;
  wake = wake_first;
  sleeping-nobody = asleep-nobody;
  sleeping-sleep = asleep-put_asleep;
  sleeping-leave = asleep-take_out;
  wake_old = asleep-wake_first;
  wake_some = wake_first_some;
  wake_all = wake_first_all;
}
