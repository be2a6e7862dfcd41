-- ===== src/Print/Tests.antt =====
-- tb-utils.c, lines 29-149: numbers and their texts, and formats.
use threading_from_scratch.Prelude.{◌-◌, ◌^◌, ◌≡◌, refl, inr, none, some, List, [], ◌∷◌, arith}
use threading_from_scratch.Print.{print_num, print_num_s, put_digits}
use threading_from_scratch.Print.Format.{number, text, tbprint, print_from}
use threading_from_scratch.Print.Reference.{
  Piece, literal, string, integer, unsigned, format_of, render, tbprint-render,
}
use threading_from_scratch.Print.Numbers.{read, read-printed}

-- "ff"
hexadecimal : print_num 255 16 ≡ 102 ∷ 102 ∷ []
unfolding print_num put_digits
hexadecimal = refl

-- The word of -1.
read-printed_example :
    (read 16 0 (print_num (2 ^ 64 - 1) 16) ≡ 2 ^ 64 - 1)
    × (read 10 0 (print_num_s (2 ^ 64 - 1)) ≡ 2 ^ 64 - 1)
read-printed_example = read-printed (2 ^ 64 - 1) 16 (inr (inr refl)) (omega arith)

-- "n=%lu, %s", 7, "ok"
abbrev counted : List Piece
counted = literal 110 ∷ literal 61 ∷ integer 1 unsigned ∷ literal 44 ∷ literal 32 ∷ string ∷ []

tbprint-render_example :
    tbprint (format_of counted) (number 7 ∷ text (111 ∷ 107 ∷ []) ∷ [])
    ≡ render counted (number 7 ∷ text (111 ∷ 107 ∷ []) ∷ [])
tbprint-render_example =
    tbprint-render counted (number 7 ∷ text (111 ∷ 107 ∷ []) ∷ [])
      ((λ e. omega arith), ((λ e. omega arith), ((λ e. omega arith), ((λ e. omega arith), tt))))

counted_text :
    render counted (number 7 ∷ text (111 ∷ 107 ∷ []) ∷ [])
    ≡ some (110 ∷ 61 ∷ 55 ∷ 44 ∷ 32 ∷ 111 ∷ 107 ∷ [])
unfolding print_num put_digits
counted_text = refl

-- A `%` that ends the format prints the text before it twice.
printed_twice : tbprint (97 ∷ 98 ∷ 37 ∷ []) [] ≡ some (97 ∷ 98 ∷ 97 ∷ 98 ∷ [])
unfolding tbprint print_from
printed_twice = refl

-- Letters `l` that end the format are followed by a read past its end.
past_end : tbprint (37 ∷ 108 ∷ []) (number 7 ∷ []) ≡ none
unfolding tbprint print_from
past_end = refl
