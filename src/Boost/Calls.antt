-- ===== src/Boost/Calls.antt =====
-- tb-mutexes.c, lines 226-275, with tb-sched.c: the calls of tb-sched.c keep the element of the mutex
-- as high as what was lent.
use threading_from_scratch.Prelude.{
  ℕ,
  ◌≤◌,
  ◌≡◌,
  refl,
  Bool,
  true,
  false,
  subst,
  sym,
  none,
  List,
  [],
  ◌∷◌,
  arith,
  Threads.{put},
}
use native.Mathlib.Decide.{ℕ_discrete}
use threading_from_scratch.Kernel.{Kernel}
use threading_from_scratch.Inherit.{Place}
use threading_from_scratch.Inherit.Invariant.{Fields}
use threading_from_scratch.Sched.{
  Scheduler, InhMutex, Thread, sched_info_priority, find_inherit, tb_inherit_mutex_add,
  tb_inherit_mutex_sched, tb_inherit_mutex_unsched,
}
use threading_from_scratch.Sched.Effective.{All, unpack}
use threading_from_scratch.Sched.Current.{IsSettable}
use threading_from_scratch.Sched.Kept.{
  Kept, Grants, inherit_add-Kept, inherit_sched-Kept, inherit_unsched-Kept,
}
use threading_from_scratch.Sched.Waiters.{unused}
use threading_from_scratch.Sched.Elements.{
  Holds, raised, add-Holds, sched-Holds, unsched-gone, raised-le, Kept-IsSettable,
}
use threading_from_scratch.Boost.{SchedCall, add, sched, unsched, nothing, make_call, lend}
use threading_from_scratch.Boost.Steps.{Boosted}
use threading_from_scratch.Boost.Kept.{
  is_boosted, Turns, lending-boosted, others_plain, boosted-owner,
}

-- All of them have at most a priority.
abbrev pub NoHigher : ℕ → List ℕ → Type 0
NoHigher priority lent = All (λ th. sched_info_priority th ≤ priority) lent

pub NoHigher-mono : (p q : ℕ) (lent : List ℕ) → p ≤ q → NoHigher p lent → NoHigher q lent
NoHigher-mono p q [] le a = tt
NoHigher-mono p q (x ∷ xs) le a = (omega (arith, a.0), NoHigher-mono p q xs le a.1)

module _ (sys : Scheduler) (infos : ℕ → ℕ) (m : ℕ) (grants : Grants sys)
    (settable : (b : ℕ) → IsSettable (unpack (infos b))) where
  -- A thread without an element of the mutex, or with one that is as high as all that was lent.
  pub record Sound (boosted : Bool) (lent : List ℕ) (t : Thread) : Type 0 where
    pub kept : Kept infos t
    pub gone : boosted ≡ false → find_inherit m t.inherit_mutexes ≡ none
    pub held :
        boosted ≡ true
        → (im : InhMutex) × Holds m im t.inherit_mutexes
          × NoHigher (sched_info_priority im.sched_info) lent

  Sound-plain : (lent lent' : List ℕ) (t : Thread) → Sound false lent t → Sound false lent' t
  Sound-plain lent lent' t v = record { kept = v.kept; gone = v.gone; held = λ e. cc }

  add-Sound :
      (lent : List ℕ) (t : Thread)
      → Sound false lent t
      → Sound true [] (tb_inherit_mutex_add true m t)
  add-Sound lent t v = record {
    kept = inherit_add-Kept infos sys grants settable true m t v.kept;
    gone = λ e. cc;
    held = λ e. (unused m, add-Holds sys infos m t (v.gone refl), tt);
  }

  unsched-Sound :
      (lent : List ℕ) (t : Thread)
      → Sound true lent t
      → Sound false lent (tb_inherit_mutex_unsched sys infos m t)
  unsched-Sound lent t v =
      let (im, holds, high) = v.held refl in
      record {
        kept = inherit_unsched-Kept infos sys grants settable m t v.kept;
        gone = λ e. unsched-gone sys infos m t im holds;
        held = λ e. cc;
      }

  sched-Sound :
      (lent : List ℕ) (th : ℕ) (t : Thread)
      → IsSettable (unpack th)
      → Sound true lent t
      → Sound true (th ∷ lent) (tb_inherit_mutex_sched sys infos m th t)
  sched-Sound lent th t s v =
      let (im, holds, high) = v.held refl in
      let (at, up) = raised-le th im in
      record {
        kept = inherit_sched-Kept infos sys grants settable m th t s v.kept;
        gone = λ e. cc;
        held = λ e. (
          raised th im,
          sched-Holds sys infos m t th im holds,
          (at, NoHigher-mono _ _ lent up high),
        );
      }

  Sound-at :
      {b b' : Bool} {lent : List ℕ} {t t' : Thread}
      → b' ≡ b
      → t' ≡ t
      → Sound b lent t
      → Sound b' lent t'
  Sound-at {b} {b'} {lent} {t} {t'} eb et v =
      subst (λ x. Sound x lent t') (sym eb) (subst (λ x. Sound b lent x) (sym et) v)

  module _ (k : Kernel) where
    pub record Raised (n : ℕ) (s : Boosted k.Queue) : Type 0 where
      pub fields : Fields k n s.threads
      pub sound : (j : ℕ) → Sound (is_boosted (s.threads.place j)) s.lent (s.scheds j)

    module _ {n : ℕ} {s : Boosted k.Queue} (inv : Raised n s) (i : ℕ) (place' : Place) where
      open inv use {fields, sound}

      abbrev After : SchedCall → ℕ → Type 0
      After c j =
          Sound (is_boosted (put s.threads.place i place' j))
            (lend c (s.scheds i).sched_info s.lent)
            (make_call sys infos m c i s.threads.mem.owner s.scheds j)

      -- A thread without an element, which the call does not touch.
      untouched :
          (c : SchedCall) (j : ℕ)
          → is_boosted (s.threads.place j) ≡ false
          → is_boosted (put s.threads.place i place' j) ≡ false
          → make_call sys infos m c i s.threads.mem.owner s.scheds j ≡ s.scheds j
          → After c j
      untouched c j b b' t =
          Sound-at b' t (Sound-plain s.lent _ (s.scheds j) (Sound-at (sym b) refl (sound j)))

      nothing-After : Turns nothing (s.threads.place i) place' → (j : ℕ) → After nothing j
      unfolding make_call
      nothing-After same j = Sound-at (ground arith) refl (sound j)

      add-After : Turns add (s.threads.place i) place' → (j : ℕ) → After add j
      unfolding make_call
      add-After (named, own, before, now) j =
          let owner = fields.named i named in
          elim (ℕ_discrete i j) [
            | yes e ↦
                Sound-at (ground arith) (ground arith)
                  (add-Sound s.lent (s.scheds i) (Sound-at (sym before) refl (sound i)))
            | no d ↦
                let plain = others_plain k fields i j own d in
                untouched add j plain (ground arith) (ground arith)
          ]

      unsched-After : Turns unsched (s.threads.place i) place' → (j : ℕ) → After unsched j
      unfolding make_call
      unsched-After (named, own, before, now) j =
          let owner = fields.named i named in
          elim (ℕ_discrete i j) [
            | yes e ↦
                Sound-at (ground arith) (ground arith)
                  (unsched-Sound s.lent (s.scheds i) (Sound-at (sym before) refl (sound i)))
            | no d ↦
                let plain = others_plain k fields i j own d in
                untouched unsched j plain (ground arith) (ground arith)
          ]

      sched-After : Turns sched (s.threads.place i) place' → (j : ℕ) → After sched j
      unfolding make_call
      sched-After (lends, before, now) j =
          let (o, owner, b) = lending-boosted k fields i lends in
          let th = Kept-IsSettable infos (s.scheds i) settable (sound i).kept in
          elim (ℕ_discrete o j) [
            | yes e ↦ Sound-at (ground arith) (ground arith) (
                sched-Sound s.lent (s.scheds i).sched_info (s.scheds o) th
                  (Sound-at (sym b) refl (sound o)))
            | no d ↦
                let plain = others_plain k fields o j (boosted-owner (s.threads.place o) b) d in
                untouched sched j plain (ground arith) (ground arith)
          ]

      pub call-After : (c : SchedCall) → Turns c (s.threads.place i) place' → (j : ℕ) → After c j
      call-After add t j = add-After t j
      call-After sched t j = sched-After t j
      call-After unsched t j = unsched-After t j
      call-After nothing t j = nothing-After t j
