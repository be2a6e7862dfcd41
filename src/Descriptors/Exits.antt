-- ===== src/Descriptors/Exits.antt =====
-- tb-threads.c, lines 120-154: what the two parts of tbthread_exit keep.
use threading_from_scratch.Prelude.{ℕ, ◌≡◌, refl, Bool, true, false, List, ◌∷◌, arith}
use threading_from_scratch.LinkedList.Links.{has}
use threading_from_scratch.Descriptors.{
  State, Run, faults, blocks, returns, rm_first, release_descriptor, and_unmap, exit_section,
  exit_rest,
}
use threading_from_scratch.Descriptors.Actions.{Actors, begin_exit, after_exit}
use threading_from_scratch.Descriptors.Claims.{
  times, has-times_pos, Inv, Safe, stacks-Inv, end_exit-Inv,
}

-- The invariant of all that act.
abbrev pub Good : Actors → Type 0
Good x = Inv x.leaving (x.state, x.owed)

-- The section of tbthread_exit changes no list.
pub section-Inv :
    (d v : ℕ) (s : State) (leaving owed : List ℕ)
    → Inv leaving (s, owed)
    → Inv leaving ((exit_section d v s).0, owed)
unfolding exit_section
section-Inv d v s leaving owed inv = record {
  unique = inv.unique;
  owed_used = inv.owed_used;
  claimed = λ e h. ground (arith, inv.claimed e);
  left = λ e h. ground (arith, inv.left e);
}

-- A detached thread is owed to nobody before its exit.
pub detached-Inv :
    (d v : ℕ) (s : State) (leaving owed : List ℕ)
    → has d s.used ≡ true
    → (exit_section d v s).1 ≡ true
    → Inv leaving (s, owed)
    → Inv (d ∷ leaving) ((exit_section d v s).0, owed)
unfolding exit_section times
detached-Inv d v s leaving owed used detached inv = record {
  unique = inv.unique;
  owed_used =
      λ e. ground (arith, inv.owed_used e, inv.claimed d, inv.left d, has-times_pos d s.used used);
  claimed = λ e h. ground (arith, inv.claimed e);
  left = λ e h. ground (arith, inv.left e);
}

unmap-Safe :
    (leaving owed : List ℕ) (stack : ℕ) (r : Run State)
    → Safe (λ s'. Inv leaving (s', owed)) r
    → Safe (λ s'. Inv leaving (s', owed)) (and_unmap stack r)
unmap-Safe leaving owed stack (returns s) inv = stacks-Inv inv _
unmap-Safe leaving owed stack faults h = h
unmap-Safe leaving owed stack blocks h = h

after_exit-Safe :
    (x : Actors) (r : Run State)
    → Safe (λ s'. Inv x.leaving (s', x.owed)) r
    → Safe Good (after_exit x r)
after_exit-Safe x (returns t) h = h
after_exit-Safe x faults h = h
after_exit-Safe x blocks h = h

pub begin_exit-Good :
    (d stack : ℕ) (t : State) (b : Bool) (x : Actors)
    → Inv x.leaving (t, x.owed)
    → (b ≡ true → Inv (d ∷ x.leaving) (t, x.owed))
    → Safe Good (begin_exit d stack (t, b) x)
unfolding exit_rest
begin_exit-Good d stack t true x inv detached = detached refl
begin_exit-Good d stack t false x inv detached = stacks-Inv inv _

pub ends_exit-Good :
    (d : ℕ) (x : Actors)
    → has d x.leaving ≡ true
    → Good x
    → Safe Good (
        after_exit
          (record x { leaving = rm_first d x.leaving })
          (exit_rest true d (x.stack_of d) x.state))
unfolding exit_rest
ends_exit-Good d x owes inv =
    after_exit-Safe (record x { leaving = rm_first d x.leaving }) _
      (unmap-Safe (rm_first d x.leaving) x.owed (x.stack_of d) (release_descriptor d x.state)
        (end_exit-Inv inv d owes))
