-- ===== src/Descriptors/Claims.antt =====
-- tb-threads.c, lines 120-409: no descriptor is released twice.
use threading_from_scratch.Prelude.{
  ℕ,
  ◌+◌,
  ◌≤◌,
  ◌<◌,
  ◌≡◌,
  ◌≢◌,
  refl,
  true,
  false,
  ◌&&◌,
  ◌==◌,
  List,
  [],
  ◌∷◌,
  ◌++◌,
  arith,
  Threads.{bit},
}
use threading_from_scratch.LinkedList.Links.{has}
use threading_from_scratch.Descriptors.{
  Descriptor, State, Run, faults, blocks, returns, change, rm_first, release_descriptor,
  tbthread_detach,
}

-- How often a descriptor is in a list.
unfoldable pub times : ℕ → List ℕ → ℕ
times d [] = 0
times d (x ∷ xs) = bit (d == x) + times d xs

pub times-append : (d : ℕ) (xs ys : List ℕ) → times d (xs ++ ys) ≡ times d xs + times d ys
unfolding times
times-append d [] ys = omega arith
times-append d (x ∷ xs) ys = ground (arith, times-append d xs ys)

pub times-one : (d e : ℕ) → times d (e ∷ []) ≡ bit (d == e)
unfolding times
times-one d e = omega arith

pub times-has : (d : ℕ) (xs : List ℕ) → bit (has d xs) ≤ times d xs
unfolding times
times-has d [] = omega arith
times-has d (x ∷ xs) = ground (arith, times-has d xs)

pub has-times : (d : ℕ) (xs : List ℕ) → has d xs ≡ false → times d xs ≡ 0
unfolding times
has-times d [] h = refl
has-times d (x ∷ xs) h = ground (arith, has-times d xs)

pub has-times_pos : (d : ℕ) (xs : List ℕ) → has d xs ≡ true → 1 ≤ times d xs
unfolding times
has-times_pos d xs h = ground (arith, times-has d xs)

times-rm_first :
    (d e : ℕ) (xs : List ℕ) → times d (rm_first e xs) + bit (d == e && has e xs) ≡ times d xs
unfolding times rm_first
times-rm_first d e [] = ground arith
times-rm_first d e (x ∷ xs) = ground (arith, times-rm_first d e xs)

-- No descriptor is listed twice; what a joiner or an exiting thread owes to release is in use and owed
-- once; a joiner has claimed it, and a thread that exits can no more be detached.
pub record Inv (leaving : List ℕ) (x : State × List ℕ) : Type 0 where
  pub unique : (d : ℕ) → times d x.0.used + times d x.0.free ≤ 1
  pub owed_used : (d : ℕ) → times d x.1 + times d leaving ≤ times d x.0.used
  pub claimed :
      (d : ℕ) → 0 < times d x.1 → ((x.0.desc d).join_status ≡ 2) × ((x.0.desc d).joiner ≢ 0)
  pub left : (d : ℕ) → 0 < times d leaving → (x.0.desc d).join_status ≡ 2

-- The result, if there is one, satisfies the predicate.
abbrev pub Safe : {A : Type 0} → (A → Type 0) → Run A → Type 0
Safe P faults = ⊥
Safe P blocks = Unit {0}
Safe P (returns x) = P x

pub detach-Inv :
    (d : ℕ) (s : State) (leaving owed : List ℕ)
    → Inv leaving (s, owed)
    → Inv leaving ((tbthread_detach d s).0, owed)
unfolding tbthread_detach
detach-Inv d s leaving owed inv = record {
  unique = λ e. ground (arith, inv.unique e);
  owed_used = λ e. ground (arith, inv.owed_used e);
  claimed = λ e h. ground (arith, inv.claimed e);
  left = λ e h. ground (arith, inv.left e);
}

module _ {s : State} {leaving owed : List ℕ} (inv : Inv leaving (s, owed)) where
  pub owed_has_used : (d : ℕ) → has d owed ≡ true → has d s.used ≡ true
  owed_has_used d h = ground (arith, inv.owed_used d, times-has d owed, has-times d s.used)

  -- A descriptor that nobody owes to release may change.
  pub change-Inv :
      (d : ℕ) (v : Descriptor)
      → times d owed + times d leaving ≡ 0
      → Inv leaving (change d v s, owed)
  change-Inv d v free = record {
    unique = inv.unique;
    owed_used = inv.owed_used;
    claimed = λ e h. ground (arith, inv.claimed e);
    left = λ e h. ground (arith, inv.left e);
  }

  pub stacks-Inv : (xs : List ℕ) → Inv leaving (record s { stacks = xs }, owed)
  stacks-Inv xs = record {
    unique = inv.unique;
    owed_used = inv.owed_used;
    claimed = inv.claimed;
    left = inv.left;
  }

  pub release-Inv :
      (d : ℕ)
      → has d s.used ≡ true
      → times d owed + times d leaving ≡ 0
      → Safe (λ s'. Inv leaving (s', owed)) (release_descriptor d s)
  unfolding release_descriptor
  release-Inv d used free = rw used (record {
    unique = λ e. ground (
      arith,
      inv.unique e,
      times-rm_first e d s.used,
      times-append e s.free (d ∷ []),
      times-one e d,
    );
    owed_used = λ e. ground (arith, inv.owed_used e, times-rm_first e d s.used);
    claimed = inv.claimed;
    left = inv.left;
  })

  pub end_join-Inv :
      (d : ℕ)
      → has d owed ≡ true
      → Safe (λ s'. Inv leaving (s', rm_first d owed)) (release_descriptor d s)
  unfolding release_descriptor
  end_join-Inv d owes = rw (owed_has_used d owes) (record {
    unique = λ e. ground (
      arith,
      inv.unique e,
      times-rm_first e d s.used,
      times-append e s.free (d ∷ []),
      times-one e d,
      owed_has_used d owes,
    );
    owed_used = λ e. ground (
      arith,
      inv.owed_used e,
      times-rm_first e d s.used,
      times-rm_first e d owed,
      owed_has_used d owes,
    );
    claimed = λ e h. inv.claimed e (omega (arith, times-rm_first e d owed));
    left = inv.left;
  })

  -- The end of an exit.
  pub end_exit-Inv :
      (d : ℕ)
      → has d leaving ≡ true
      → Safe (λ s'. Inv (rm_first d leaving) (s', owed)) (release_descriptor d s)
  unfolding release_descriptor
  end_exit-Inv d owes =
      let used : has d s.used ≡ true =
        ground (arith, inv.owed_used d, times-has d leaving, has-times d s.used) in
      rw used (record {
        unique = λ e. ground (
          arith,
          inv.unique e,
          times-rm_first e d s.used,
          times-append e s.free (d ∷ []),
          times-one e d,
          used,
        );
        owed_used = λ e.
            ground
              (arith, inv.owed_used e, times-rm_first e d s.used, times-rm_first e d leaving, used);
        claimed = inv.claimed;
        left = λ e h. inv.left e (omega (arith, times-rm_first e d leaving));
      })
