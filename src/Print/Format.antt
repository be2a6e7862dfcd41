-- ===== src/Print/Format.antt =====
-- tb-utils.c, lines 81-149: tbprint. A format is its characters before the terminating 0, and what is
-- printed is what the calls of tbwrite write, in order.
use threading_from_scratch.Prelude.{
  ℕ,
  zero,
  suc,
  ◌+◌,
  ◌%◌,
  ◌^◌,
  ◌==◌,
  true,
  false,
  if◌then◌else◌,
  Option,
  none,
  some,
  List,
  [],
  ◌∷◌,
  ◌++◌,
  Words.{from_int},
}
use threading_from_scratch.Print.{print_num, print_num_s}

-- The arguments that va_arg reads: a string, or a number in its 64-bit slot.
pub data Arg : Type 0 where
  text : List ℕ → Arg
  number : ℕ → Arg

abbrev pub take : ℕ → List ℕ → List ℕ
take zero xs = []
take (suc n) [] = []
take (suc n) (x ∷ xs) = x ∷ take n xs

-- Output before other output.
abbrev pub write : List ℕ → Option (List ℕ) → Option (List ℕ)
write out none = none
write out (some rest) = some (out ++ rest)

-- Lines 111-118.
abbrev pub base_of : ℕ → ℕ
base_of c = if c == 120 then 16 else if c == 117 then 10 else if c == 111 then 8 else 0

-- Lines 120-133: what is printed for the conversion `c` with `sz` letters `l`.
unfoldable pub number_text : (sz c num : ℕ) → List ℕ
number_text sz c num =
    if c == 100
    then print_num_s (if sz == 0 then from_int (num % 2 ^ 32) else num % 2 ^ 64)
    else print_num (if sz == 0 then num % 2 ^ 32 else num % 2 ^ 64) (base_of c)

-- Where the loop is: at a character of the text, after a `%`, or after that and some letters `l`.
pub data Place : Type 0 where
  plain percent : Place
  size : (sz : ℕ) → Place

-- A number is read with `more` to follow.
abbrev pub with_number : List Arg → (ℕ → List ℕ) → (List Arg → Option (List ℕ)) → Option (List ℕ)
with_number [] f more = none
with_number (text s ∷ args) f more = none
with_number (number n ∷ args) f more = write (f n) (more args)

abbrev pub with_text : List Arg → (List Arg → Option (List ℕ)) → Option (List ℕ)
with_text [] more = none
with_text (text s ∷ args) more = write s (more args)
with_text (number n ∷ args) more = none

-- The loop at a place, with `start`, `length` and the format from `cursor` on. The result is none where
-- an argument is missing or of the other kind, or the cursor goes past the end of the format.
unfoldable pub print_from :
    Place → (start : List ℕ) → (length : ℕ) → (cursor : List ℕ) → List Arg → Option (List ℕ)
unfolding number_text
print_from plain start length [] args = some (take length start)
print_from plain start length (c ∷ cs) args = elim (c == 37) [
  | true ↦ write (take length start) (print_from percent start length cs args)
  | false ↦ print_from plain start (length + 1) cs args
]
print_from percent start length [] args = some (take length start)
print_from percent start length (c ∷ cs) args = elim (c == 115) [
  | true ↦ with_text args (λ rest. print_from plain cs 0 cs rest)
  | false ↦ elim (c == 108) [
    | true ↦ print_from (size 1) start length cs args
    | false ↦ with_number args (number_text 0 c) (λ rest. print_from plain cs 0 cs rest)
  ]
]
print_from (size sz) start length [] args = none
print_from (size sz) start length (c ∷ cs) args = elim (c == 108) [
  | true ↦ print_from (size (sz + 1)) start length cs args
  | false ↦ with_number args (number_text sz c) (λ rest. print_from plain cs 0 cs rest)
]

unfoldable pub tbprint : (format : List ℕ) → List Arg → Option (List ℕ)
unfolding print_from
tbprint format args = print_from plain format 0 format args
