-- ===== src/Strerror/Tests.antt =====
-- tb-utils.c, lines 478-611: some messages.
use Prim.Native.String.{String}
use threading_from_scratch.Prelude.{ℕ, ◌≡◌, refl, false, some, List, ◌∷◌, ◌++◌}
use threading_from_scratch.LinkedList.Links.{has}
use threading_from_scratch.Strerror.{errors, find_row, tbstrerror}
use threading_from_scratch.Strerror.First.{numbers, tbstrerror-first}

tbstrerror-first_run :
    ((xs ys : List (ℕ × String)) (msg : String)
      → errors ≡ xs ++ (11, msg) ∷ ys
      → has 11 (numbers xs) ≡ false
      → tbstrerror 11 ≡ some msg)
    × (has 11 (numbers errors) ≡ false → tbstrerror 11 ≡ some "Unknown")
tbstrerror-first_run = tbstrerror-first 11

-- EDEADLOCK and EWOULDBLOCK have the messages of EDEADLK and EAGAIN.
shadowed :
    (tbstrerror 35 ≡ some "Resource deadlock avoided")
    × (tbstrerror 11 ≡ some "Resource temporarily unavailable")
    × (tbstrerror 4000 ≡ some "Unknown")
unfolding tbstrerror errors find_row
shadowed = (refl, refl, refl)
