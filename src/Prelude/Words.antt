-- ===== src/Prelude/Words.antt =====
-- Machine words as native numbers: `int` and `uint32_t` counters are 32-bit patterns.
use Prim.Native.Nat.{ℕ, ◌+◌, ◌-◌, ◌%◌, ◌^◌}
use threading_from_scratch.Prelude.Tests.{ltb, if◌then◌else◌}

-- `++x` and `--x`, of which the second takes 0 to the pattern of -1.
abbrev pub inc32 : ℕ → ℕ
inc32 x = (x + 1) % 2 ^ 32

abbrev pub dec32 : ℕ → ℕ
dec32 x = (x + 2 ^ 32 - 1) % 2 ^ 32

-- The same on an `uint64_t`.
abbrev pub inc64 : ℕ → ℕ
inc64 x = (x + 1) % 2 ^ 64

abbrev pub dec64 : ℕ → ℕ
dec64 x = (x + 2 ^ 64 - 1) % 2 ^ 64

-- The bit pattern of an `int` as the one of the 64-bit word that it is extended to.
abbrev pub from_int : ℕ → ℕ
from_int b = if ltb b (2 ^ 31) then b else b + (2 ^ 64 - 2 ^ 32)
