-- ===== src/Strerror/First.antt =====
-- tb-utils.c, lines 606-611: which row of the table is found.
use Prim.Native.String.{String}
use threading_from_scratch.Prelude.{
  ℕ, ◌≡◌, refl, ap, subst, ◌∙◌, Bool, true, false, ◌==◌, if◌then◌else◌, Option, none, some, List,
  [], ◌∷◌, ◌++◌, arith,
}
use threading_from_scratch.LinkedList.Links.{has}
use threading_from_scratch.Strerror.{errors, find_row, tbstrerror}

-- The error numbers of some rows.
unfoldable pub numbers : List (ℕ × String) → List ℕ
numbers [] = []
numbers ((n, msg) ∷ rows) = n ∷ numbers rows

-- The row for 0 ends the table.
unfoldable pub is_ended : List (ℕ × String) → Bool
is_ended [] = false
is_ended ((n, msg) ∷ []) = n == 0
is_ended ((n, msg) ∷ r ∷ rows) = if n == 0 then false else is_ended (r ∷ rows)

-- The message of the last row.
unfoldable pub last_message : List (ℕ × String) → Option String
last_message [] = none
last_message ((n, msg) ∷ []) = some msg
last_message ((n, msg) ∷ r ∷ rows) = last_message (r ∷ rows)

find-absent :
    (errno : ℕ) (rows : List (ℕ × String))
    → is_ended rows ≡ true
    → has errno (numbers rows) ≡ false
    → find_row errno rows ≡ last_message rows
unfolding find_row numbers is_ended last_message
find-absent errno [] ends absent = refl
find-absent errno ((n, msg) ∷ []) ends absent = ground arith
find-absent errno ((n, msg) ∷ r ∷ rows) ends absent = ground (arith, find-absent errno (r ∷ rows))

ended-no_zero :
    (xs ys : List (ℕ × String)) (r : ℕ × String)
    → is_ended (xs ++ r ∷ ys) ≡ true
    → has 0 (numbers xs) ≡ false
unfolding numbers is_ended
ended-no_zero [] ys r ends = refl
ended-no_zero ((n, msg) ∷ []) ys r ends = ground arith
ended-no_zero ((n, msg) ∷ x ∷ xs) ys r ends = ground (arith, ended-no_zero (x ∷ xs) ys r)

find-split :
    (errno : ℕ) (msg : String) (xs ys : List (ℕ × String))
    → has 0 (numbers xs) ≡ false
    → has errno (numbers xs) ≡ false
    → find_row errno (xs ++ (errno, msg) ∷ ys) ≡ some msg
unfolding find_row numbers
find-split errno msg [] ys no_end first = ground arith
find-split errno msg ((n, m) ∷ xs) ys no_end first = ground (arith, find-split errno msg xs ys)

errors-end : is_ended errors ≡ true
unfolding errors is_ended
errors-end = refl

errors-last : last_message errors ≡ some "Unknown"
unfolding errors last_message
errors-last = refl

-- For every error number, tbstrerror gives the message of the first row of the table with that number,
-- or "Unknown" if there is none; it never looks past the end of the table.
pub tbstrerror-first :
    (errno : ℕ)
    → ((xs ys : List (ℕ × String)) (msg : String)
        → errors ≡ xs ++ (errno, msg) ∷ ys
        → has errno (numbers xs) ≡ false
        → tbstrerror errno ≡ some msg)
      × (has errno (numbers errors) ≡ false → tbstrerror errno ≡ some "Unknown")
unfolding tbstrerror
tbstrerror-first errno = (
  λ xs ys msg split first.
      ap (find_row errno) split
      ∙ find-split errno msg xs ys
          (ended-no_zero xs ys (errno, msg) (subst (λ t. is_ended t ≡ true) split errors-end))
          first,
  λ absent. find-absent errno errors errors-end absent ∙ errors-last,
)
