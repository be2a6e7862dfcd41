-- ===== src/Print/Reference.antt =====
-- tb-utils.c, lines 81-149: tbprint prints what the parts of its format say, one by one.
use threading_from_scratch.Prelude.{
  ℕ,
  zero,
  suc,
  ◌+◌,
  ◌%◌,
  ◌^◌,
  ◌≡◌,
  ◌≢◌,
  refl,
  sym,
  ap,
  ◌∙◌,
  ◌==◌,
  false,
  Option,
  none,
  some,
  List,
  [],
  ◌∷◌,
  ◌++◌,
  length,
  replicate,
  arith,
  Words.{from_int},
}
use mathlib.Core.List.{append_assoc, append-nil}
use threading_from_scratch.Print.{print_num, print_num_s}
use threading_from_scratch.Print.Format.{
  Arg, text, number, take, write, number_text, plain, percent, size, with_number, with_text,
  print_from, tbprint,
}

-- The parts that a format is made of.
pub data Conversion : Type 0 where
  hexadecimal unsigned octal signed : Conversion

pub data Piece : Type 0 where
  literal : ℕ → Piece
  string : Piece
  integer : (longs : ℕ) → Conversion → Piece

abbrev pub letter : Conversion → ℕ
letter hexadecimal = 120
letter unsigned = 117
letter octal = 111
letter signed = 100

-- The format of some parts.
abbrev pub format_of : List Piece → List ℕ
format_of [] = []
format_of (literal c ∷ ps) = c ∷ format_of ps
format_of (string ∷ ps) = 37 ∷ 115 ∷ format_of ps
format_of (integer longs c ∷ ps) = 37 ∷ (replicate longs 108 ++ letter c ∷ format_of ps)

-- A literal is no `%`.
abbrev pub IsFormat : List Piece → Type 0
IsFormat [] = Unit {0}
IsFormat (literal c ∷ ps) = (c ≢ 37) × IsFormat ps
IsFormat (p ∷ ps) = IsFormat ps

-- An `int` or `unsigned` without a letter `l`, a 64-bit word with some.
abbrev pub integer_text : (longs : ℕ) → Conversion → ℕ → List ℕ
integer_text zero hexadecimal n = print_num (n % 2 ^ 32) 16
integer_text zero unsigned n = print_num (n % 2 ^ 32) 10
integer_text zero octal n = print_num (n % 2 ^ 32) 8
integer_text zero signed n = print_num_s (from_int (n % 2 ^ 32))
integer_text (suc l) hexadecimal n = print_num (n % 2 ^ 64) 16
integer_text (suc l) unsigned n = print_num (n % 2 ^ 64) 10
integer_text (suc l) octal n = print_num (n % 2 ^ 64) 8
integer_text (suc l) signed n = print_num_s (n % 2 ^ 64)

-- What the parts print, each of the arguments in turn.
abbrev pub render : List Piece → List Arg → Option (List ℕ)
render [] args = some []
render (literal c ∷ ps) args = write (c ∷ []) (render ps args)
render (string ∷ ps) [] = none
render (string ∷ ps) (text s ∷ args) = write s (render ps args)
render (string ∷ ps) (number n ∷ args) = none
render (integer l c ∷ ps) [] = none
render (integer l c ∷ ps) (text s ∷ args) = none
render (integer l c ∷ ps) (number n ∷ args) = write (integer_text l c n) (render ps args)

number_text-integer : (l n : ℕ) (c : Conversion) → number_text l (letter c) n ≡ integer_text l c n
unfolding number_text
number_text-integer zero n hexadecimal = refl
number_text-integer zero n unsigned = refl
number_text-integer zero n octal = refl
number_text-integer zero n signed = refl
number_text-integer (suc l) n hexadecimal = ground arith
number_text-integer (suc l) n unsigned = ground arith
number_text-integer (suc l) n octal = ground arith
number_text-integer (suc l) n signed = ground arith

write-append : (xs ys : List ℕ) (o : Option (List ℕ)) → write (xs ++ ys) o ≡ write xs (write ys o)
write-append xs ys none = refl
write-append xs ys (some zs) = ap some (append_assoc xs ys zs)

write-nil : (o : Option (List ℕ)) → write [] o ≡ o
write-nil none = refl
write-nil (some zs) = refl

take-length : (xs ys : List ℕ) → take (length xs) (xs ++ ys) ≡ xs
take-length [] ys = refl
take-length (x ∷ xs) ys = ap (λ zs. x ∷ zs) (take-length xs ys)

length-last : (xs : List ℕ) (x : ℕ) → length (xs ++ x ∷ []) ≡ length xs + 1
length-last [] x = omega arith
length-last (y ∷ xs) x = ground (arith, length-last xs x)

-- The rest of a conversion, after its first letters `l`.
size-with_number :
    (start : List ℕ) (n sz l : ℕ) (c : Conversion) (f : List ℕ) (args : List Arg)
    → print_from (size sz) start n (replicate l 108 ++ letter c ∷ f) args
      ≡ with_number args (number_text (sz + l) (letter c)) (λ rest. print_from plain f 0 f rest)
unfolding print_from
size-with_number start n sz zero hexadecimal f args =
    ap
      (λ z.
        with_number args (number_text z (letter hexadecimal)) (λ rest. print_from plain f 0 f rest))
      (omega arith)
size-with_number start n sz zero unsigned f args =
    ap
      (λ z.
        with_number args (number_text z (letter unsigned)) (λ rest. print_from plain f 0 f rest))
      (omega arith)
size-with_number start n sz zero octal f args =
    ap (λ z. with_number args (number_text z (letter octal)) (λ rest. print_from plain f 0 f rest))
      (omega arith)
size-with_number start n sz zero signed f args =
    ap (λ z. with_number args (number_text z (letter signed)) (λ rest. print_from plain f 0 f rest))
      (omega arith)
size-with_number start n sz (suc l) c f args =
    size-with_number start n (sz + 1) l c f args
    ∙ ap (λ z. with_number args (number_text z (letter c)) (λ rest. print_from plain f 0 f rest))
        (omega arith)

percent-with_number :
    (start : List ℕ) (n l : ℕ) (c : Conversion) (f : List ℕ) (args : List Arg)
    → print_from percent start n (replicate l 108 ++ letter c ∷ f) args
      ≡ with_number args (number_text l (letter c)) (λ rest. print_from plain f 0 f rest)
unfolding print_from
percent-with_number start n zero hexadecimal f args = refl
percent-with_number start n zero unsigned f args = refl
percent-with_number start n zero octal f args = refl
percent-with_number start n zero signed f args = refl
percent-with_number start n (suc l) c f args =
    size-with_number start n 1 l c f args
    ∙ ap (λ z. with_number args (number_text z (letter c)) (λ rest. print_from plain f 0 f rest))
        (omega arith)

module _ (ps : List Piece) (f : List ℕ)
    (rest_prints : (args : List Arg) → print_from plain f 0 f args ≡ render ps args) where
  number-render :
      (l : ℕ) (c : Conversion) (args : List Arg)
      → with_number args (number_text l (letter c)) (λ rest. print_from plain f 0 f rest)
        ≡ render (integer l c ∷ ps) args
  number-render l c [] = refl
  number-render l c (text s ∷ args) = refl
  number-render l c (number n ∷ args) = cc (number_text-integer l n c, rest_prints args)

  text-render :
      (args : List Arg)
      → with_text args (λ rest. print_from plain f 0 f rest) ≡ render (string ∷ ps) args
  text-render [] = refl
  text-render (text s ∷ args) = cc (rest_prints args)
  text-render (number n ∷ args) = refl

print_from-literal :
    (start : List ℕ) (n c : ℕ) (cs : List ℕ) (args : List Arg)
    → c ≢ 37
    → print_from plain start n (c ∷ cs) args ≡ print_from plain start (n + 1) cs args
unfolding print_from
print_from-literal start n c cs args other =
    let differs : (c == 37) ≡ false = ground arith in rw (differs, print_from) refl

-- The text since the last conversion stands before the cursor.
print_from-render :
    (ps : List Piece) (pre : List ℕ) (args : List Arg)
    → IsFormat ps
    → print_from plain (pre ++ format_of ps) (length pre) (format_of ps) args
      ≡ write pre (render ps args)
unfolding print_from
print_from-render [] pre args is = ap some (take-length pre [] ∙ sym (append-nil pre))
print_from-render (literal c ∷ ps) pre args (plain_text, is) =
    let rest = print_from-render ps (pre ++ c ∷ []) args is in
    print_from-literal (pre ++ c ∷ format_of ps) (length pre) c (format_of ps) args plain_text
    ∙ cc (
      append_assoc pre (c ∷ []) (format_of ps),
      length-last pre c,
      rest,
      write-append pre (c ∷ []) (render ps args),
    )
print_from-render (string ∷ ps) pre args is =
    let rest : (r : List Arg) → _ = λ r. print_from-render ps [] r is ∙ write-nil (render ps r) in
    ap (λ t. write t _) (take-length pre _)
    ∙ ap (write pre) (text-render ps (format_of ps) rest args)
print_from-render (integer l c ∷ ps) pre args is =
    let rest : (r : List Arg) → _ = λ r. print_from-render ps [] r is ∙ write-nil (render ps r) in
    let start = pre ++ format_of (integer l c ∷ ps) in
    ap
      (λ t.
        write t
          (print_from percent start (length pre) (replicate l 108 ++ letter c ∷ format_of ps) args))
      (take-length pre (format_of (integer l c ∷ ps)))
    ∙ ap (write pre) (
        percent-with_number start (length pre) l c (format_of ps) args
        ∙ number-render ps (format_of ps) rest l c args)

-- tbprint equals the reference: for every list of parts, of which the literal ones are no `%`, and
-- every list of arguments, tbprint of their format prints what the parts say of the arguments one by
-- one, and fails exactly where an argument is missing or of the other kind.
pub tbprint-render :
    (ps : List Piece) (args : List Arg) → IsFormat ps → tbprint (format_of ps) args ≡ render ps args
unfolding tbprint
tbprint-render ps args is = print_from-render ps [] args is ∙ write-nil (render ps args)
