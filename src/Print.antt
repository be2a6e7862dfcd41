-- ===== src/Print.antt =====
-- tb-utils.c, lines 29-75: the text of a number, as the character codes that tbwrite gets.
mod Numbers
pub mod Format
mod Reference
mod Tests
use threading_from_scratch.Prelude.{
  ℕ, zero, suc, ◌+◌, ◌/◌, ◌%◌, Bool, ◌||◌, ◌==◌, ltb, leb, if◌then◌else◌, List, [], ◌∷◌,
}

-- The `digits` of "0123456789abcdef".
abbrev pub digit : ℕ → ℕ
digit d = if ltb d 10 then 48 + d else 87 + d

-- The most digits that `str` has room for: `cursor` goes from str+30 down to str.
abbrev pub room : ℕ
room = 30

-- The loop of lines 44-49, with what stands behind `cursor`.
pub put_digits : (room base n : ℕ) → List ℕ → List ℕ
put_digits zero base n text = text
put_digits (suc r) base n text =
    let rest = put_digits r base (n / base) (digit (n % base) ∷ text) in
    if n == 0 then text else rest

-- An `int` base is its 32-bit word; one that is not 1 to 16 prints nothing.
pub print_num : (num base : ℕ) → List ℕ
print_num num base =
    if base == 0 || ltb 16 base
    then []
    else if num == 0
    then 48 ∷ []
    else put_digits room base num []

-- An `int64_t` is its 64-bit word.
pub print_num_s : (num : ℕ) → List ℕ
print_num_s num = if num == 0 then 48 ∷ [] else put_digits room 10 num []
