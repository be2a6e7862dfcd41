-- ===== src/Random.antt =====
-- tb-utils.c, lines 185-189: the random numbers.
use threading_from_scratch.Prelude.{ℕ, ◌+◌, ◌-◌, ◌*◌, ◌%◌, ◌^◌, ◌<◌, ◌≡◌, arith}

-- The new seed, which is also the result; `uint32_t` arithmetic wraps.
pub tbrandom : ℕ → ℕ
tbrandom seed = (1_103_515_245 * seed + 12_345) % 2 ^ 32

-- 4005161829 times 1103515245 is 1 modulo 2^32.
abbrev previous : ℕ → ℕ
previous next = (4_005_161_829 * (next + (2 ^ 32 - 12_345))) % 2 ^ 32

-- No two seeds have the same next one: it can be computed back.
previous-tbrandom : (seed : ℕ) → seed < 2 ^ 32 → previous (tbrandom seed) ≡ seed
unfolding tbrandom
previous-tbrandom seed h = omega arith

tbrandom-previous : (next : ℕ) → next < 2 ^ 32 → tbrandom (previous next) ≡ next
unfolding tbrandom
tbrandom-previous next h = omega arith

-- The lowest bit alternates.
tbrandom_alternates : (seed : ℕ) → tbrandom seed % 2 ≡ (seed + 1) % 2
unfolding tbrandom
tbrandom_alternates seed = omega arith
