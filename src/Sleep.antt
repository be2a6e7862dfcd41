-- ===== src/Sleep.antt =====
-- tb-utils.c, lines 162-172: tbsleep, by the answers of nanosleep(2).
use threading_from_scratch.Prelude.{
  ℕ, ◌+◌, ◌-◌, ◌*◌, ◌≤◌, ◌≡◌, ◌++◌, Option, none, some, List, [], ◌∷◌, refl, arith,
}

-- A `timespec`, and what nanosleep(2) answers: the time is up, or -EINTR with what remains.
pub record Timespec : Type 0 where
  pub tv_sec : ℕ
  pub tv_nsec : ℕ

pub data Nap : Type 0 where
  time_up : Nap
  interrupted : (rem : Timespec) → Nap

abbrev nanoseconds : Timespec → ℕ
nanoseconds ts = ts.tv_sec * 1_000_000_000 + ts.tv_nsec

abbrev after_nap : Timespec → Option (List Timespec) → Option (List Timespec)
after_nap ts none = none
after_nap ts (some requests) = some (ts ∷ requests)

-- The requests of the loop, by the answers that they get; `none` while it still sleeps.
pub sleep_loop : Timespec → List Nap → Option (List Timespec)
sleep_loop ts [] = none
sleep_loop ts (time_up ∷ naps) = some (ts ∷ [])
sleep_loop ts (interrupted rem ∷ naps) = after_nap ts (sleep_loop rem naps)

-- `secs` is not negative.
pub tbsleep : ℕ → List Nap → Option (List Timespec)
unfolding sleep_loop
tbsleep secs naps = sleep_loop (record { tv_sec = secs; tv_nsec = 0 }) naps

-- How long the naps take: an interrupted one takes its request less what remains.
pub slept : Timespec → List Nap → ℕ
slept ts [] = 0
slept ts (time_up ∷ naps) = nanoseconds ts
slept ts (interrupted rem ∷ naps) = nanoseconds ts - nanoseconds rem + slept rem naps

-- nanosleep leaves no more than it was asked for.
pub Shrinking : Timespec → List Nap → Type 0
Shrinking ts [] = Unit
Shrinking ts (time_up ∷ naps) = Unit
Shrinking ts (interrupted rem ∷ naps) = (nanoseconds rem ≤ nanoseconds ts) × Shrinking rem naps

loop_slept :
    (ts : Timespec) (naps : List Nap) {requests : List Timespec}
    → Shrinking ts naps
    → sleep_loop ts naps ≡ some requests
    → slept ts naps ≡ nanoseconds ts
unfolding sleep_loop slept Shrinking
loop_slept ts [] s h = ground arith
loop_slept ts (time_up ∷ naps) s h = refl
loop_slept ts (interrupted rem ∷ naps) s h =
    let (rest, e) = mapped (sleep_loop rem naps) h in omega (arith, s.0, loop_slept rem naps s.1 e)
  where
    mapped :
        (o : Option (List Timespec)) {requests : List Timespec}
        → after_nap ts o ≡ some requests
        → (rest : List Timespec) × (o ≡ some rest)
    mapped none h = ground arith
    mapped (some rest) h = (rest, refl)

-- A call of tbsleep that returns has slept for as many seconds as it was asked for, if nanosleep(2)
-- leaves no more than it was asked for whenever it is interrupted.
pub tbsleep-slept :
    (secs : ℕ) (naps : List Nap) {requests : List Timespec}
    → Shrinking (record { tv_sec = secs; tv_nsec = 0 }) naps
    → tbsleep secs naps ≡ some requests
    → slept (record { tv_sec = secs; tv_nsec = 0 }) naps ≡ secs * 1_000_000_000
unfolding tbsleep
tbsleep-slept secs naps s h = omega (arith, loop_slept _ naps s h)

-- It returns with the first nap that is not interrupted.
pub tbsleep_returns :
    (ts : Timespec) (before after : List Nap)
    → (requests : List Timespec) × (sleep_loop ts (before ++ time_up ∷ after) ≡ some requests)
unfolding sleep_loop
tbsleep_returns ts [] after = (ts ∷ [], refl)
tbsleep_returns ts (time_up ∷ before) after = (ts ∷ [], refl)
tbsleep_returns ts (interrupted rem ∷ before) after =
    let (requests, e) = tbsleep_returns rem before after in (ts ∷ requests, rw e)
