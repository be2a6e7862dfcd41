-- ===== src/Cancel/Cleanup.antt =====
-- tb-cancel.c, lines 69-142: the cleanup handlers of a thread.
use mathlib.Core.List.{append_assoc}
use threading_from_scratch.Prelude.{
  ℕ, zero, suc, ◌==◌, ◌≡◌, refl, sym, length, ◌∙◌, ap, if◌then◌else◌, List, [], ◌∷◌, ◌++◌,
}

-- A `struct cleanup_elem`: a function and its argument.
pub record Handler : Type 0 where
  pub func : ℕ
  pub arg : ℕ

-- With malloc's memory for the element; without it the code writes through a null pointer.
pub tbthread_cleanup_push : Handler → List Handler → List Handler
tbthread_cleanup_push h hs = h ∷ hs

-- The calls that it makes, and what stays.
pub tbthread_cleanup_pop : (execute : ℕ) → List Handler → List Handler × List Handler
tbthread_cleanup_pop execute [] = ([], [])
tbthread_cleanup_pop execute (h ∷ hs) = (if execute == 0 then [] else h ∷ [], hs)

pub tb_call_cleanup_handlers : List Handler → List Handler × List Handler
tb_call_cleanup_handlers hs = (hs, [])

pub tb_clear_cleanup_handlers : List Handler → List Handler
tb_clear_cleanup_handlers hs = []

pub push_all : List Handler → List Handler → List Handler
unfolding tbthread_cleanup_push
push_all [] ks = ks
push_all (h ∷ hs) ks = push_all hs (tbthread_cleanup_push h ks)

-- A number of pops: all their calls in order, and what stays.
pub pop_many : ℕ → (execute : ℕ) → List Handler → List Handler × List Handler
unfolding tbthread_cleanup_pop
pop_many zero execute ks = ([], ks)
pop_many (suc n) execute ks =
    let (called, ks') = tbthread_cleanup_pop execute ks in
    let (later, left) = pop_many n execute ks' in (called ++ later, left)

abbrev pub backwards : List Handler → List Handler
backwards [] = []
backwards (h ∷ hs) = backwards hs ++ h ∷ []

append_nil : (xs : List Handler) → xs ++ [] ≡ xs
append_nil [] = refl
append_nil (x ∷ xs) = ap (λ l. x ∷ l) (append_nil xs)

length_snoc : (xs : List Handler) (h : Handler) → length (xs ++ h ∷ []) ≡ suc (length xs)
length_snoc [] h = refl
length_snoc (x ∷ xs) h = ap suc (length_snoc xs h)

length-backwards : (hs : List Handler) → length (backwards hs) ≡ length hs
length-backwards [] = refl
length-backwards (h ∷ hs) = length_snoc (backwards hs) h ∙ ap suc (length-backwards hs)

push_all-backwards : (hs ks : List Handler) → push_all hs ks ≡ backwards hs ++ ks
unfolding push_all
push_all-backwards [] ks = refl
push_all-backwards (h ∷ hs) ks =
    push_all-backwards hs (h ∷ ks) ∙ sym (append_assoc (backwards hs) (h ∷ []) ks)

pop_many-run : (xs ks : List Handler) → pop_many (length xs) 1 (xs ++ ks) ≡ (xs, ks)
unfolding pop_many
pop_many-run [] ks = refl
pop_many-run (x ∷ xs) ks = rw (pop_many-run xs ks)

pop_many-skip : (xs ks : List Handler) → pop_many (length xs) 0 (xs ++ ks) ≡ ([], ks)
unfolding pop_many
pop_many-skip [] ks = refl
pop_many-skip (x ∷ xs) ks = rw (pop_many-skip xs ks)

-- Handlers that are pushed one after another, above any others: as many pops with `execute` call them
-- in the reverse order, and as many pops without call none; either way the others are left.
-- tb_call_cleanup_handlers calls them in the reverse order too, and leaves none.
pub cleanup_lifo :
    (hs ks : List Handler)
    → (pop_many (length hs) 1 (push_all hs ks) ≡ (backwards hs, ks))
      × (pop_many (length hs) 0 (push_all hs ks) ≡ ([], ks))
      × (tb_call_cleanup_handlers (push_all hs []) ≡ (backwards hs, []))
unfolding tb_call_cleanup_handlers
cleanup_lifo hs ks =
    let pushed = push_all-backwards hs ks in
    let count = length-backwards hs in
    (
      rw (pushed, sym count) (pop_many-run (backwards hs) ks),
      rw (pushed, sym count) (pop_many-skip (backwards hs) ks),
      ap (λ l. (l, [])) (push_all-backwards hs [] ∙ append_nil (backwards hs)),
    )
