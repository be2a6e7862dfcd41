-- ===== src/Inherit/Cases.antt =====
-- tb-mutexes.c, lines 226-275: where a thread may stand with the internal futex, case by case.
use threading_from_scratch.Prelude.{◌≡◌, ◌≢◌, refl, ◌⊎◌, inl, inr, Bool, true, false, arith}
use threading_from_scratch.Futex
use threading_from_scratch.Futex.{Pc, idle, locking, waiting, in_kernel, holding, waking, Event, go}
use threading_from_scratch.Futex.Invariant.{is_holding}
use threading_from_scratch.Inherit.{
  Place, taking, naming, marking, leaving, blocked, rousing, ending,
}
use threading_from_scratch.Inherit.Invariant.{agree, is_owner, is_lending}
use threading_from_scratch.Inherit.Wakeups.{is_awake}

-- In tb_futex_lock.
abbrev pub in_lock : Pc → Bool
in_lock locking = true
in_lock waiting = true
in_lock in_kernel = true
in_lock _ = false

pub in_lock_cases : (p : Pc) → in_lock p ≡ true → (p ≡ locking) ⊎ (p ≡ waiting) ⊎ (p ≡ in_kernel)
in_lock_cases p h = ground arith

pub taking_cases :
    (place : Place) (p : Pc)
    → agree place p ≡ true
    → is_owner place ≡ false
    → in_lock p ≡ true
    → (try : Bool) × (place ≡ taking try)
taking_cases (taking try) p f o h = (try, refl)
taking_cases place p f o h = ground arith

-- Where tb_futex_unlock is called without the mutex.
abbrev pub unlocks : Place → Bool
unlocks (leaving try false) = true
unlocks ending = true
unlocks _ = false

pub waking_cases :
    (place : Place) (p : Pc)
    → p ≡ waking
    → agree place p ≡ true
    → is_owner place ≡ false
    → unlocks place ≡ true
waking_cases place p at f o = ground arith

pub awake_cases :
    (a : Bool) (p : Pc) → Futex.Invariant.is_awake a p ≡ true → (p ≡ waking) ⊎ (in_lock p ≡ true)
awake_cases a p h = ground arith

pub retry_cases :
    (a : Bool) (place : Place) (p : Pc)
    → agree place p ≡ true
    → p ≢ holding
    → is_awake a place ≡ true
    → (in_lock p ≡ true)
      ⊎ ((place ≡ leaving false false) × (p ≡ idle))
      ⊎ ((place ≡ leaving false false) × (p ≡ waking))
      ⊎ ((place ≡ blocked) × (p ≡ idle) × (a ≡ false))
retry_cases a place p f out h = ground arith

pub section_cases :
    (place : Place) (p : Pc)
    → p ≡ holding
    → agree place p ≡ true
    → is_owner place ≡ false
    → is_lending place ≡ false
    → ((try : Bool) × ((place ≡ taking try) ⊎ (place ≡ naming try) ⊎ (place ≡ marking try)))
      ⊎ (unlocks place ≡ true)
      ⊎ (place ≡ rousing)
section_cases (taking try) p at f o l = inl (try, inl refl)
section_cases (naming try) p at f o l = inl (try, inr (inl refl))
section_cases (marking try) p at f o l = inl (try, inr (inr refl))
section_cases place p at f o l = ground arith
