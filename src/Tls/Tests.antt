-- ===== src/Tls/Tests.antt =====
-- tb-tls.c: runs of a few calls.
use threading_from_scratch.Prelude.{
  ℕ,
  ◌≡◌,
  refl,
  true,
  false,
  ◌&&◌,
  ◌==◌,
  ltb,
  if◌then◌else◌,
  List,
  [],
  ◌∷◌,
  arith,
  Threads.{put},
  Outcome.{ok},
}
use threading_from_scratch.Tls.{
  State, max_keys, key_unused, tbthread_key_create, tbthread_key_delete, tbthread_getspecific,
  tbthread_setspecific, tb_tls_call_destructors, find_unused,
}
use threading_from_scratch.Tls.Keys.{Created, tbthread_key_create-Created}
use threading_from_scratch.Tls.Values.{is_usable, getspecific-setspecific, getspecific-key_delete}
use threading_from_scratch.Tls.History.{Call, create, delete, set, calls, no_keys, new_key_null}
use threading_from_scratch.Tls.Destructors.{
  AllSet, due, has_due, leave, destructors-AllSet, destructors-due,
}
use threading_from_scratch.Tls.Race.{checking, given, create_steps, key_given_twice}

-- Keys 0 and 1, of which thread 7 has set the second.
abbrev two_keys : State
two_keys = record {
  keys =
      put (put no_keys.keys 0 (record { seq = 1; destructor = 0 })) 1
        (record { seq = 3; destructor = 99 });
  tls = put no_keys.tls 7 (put (no_keys.tls 7) 1 (record { seq = 3; value = 5 }));
}

tbthread_key_create-Created_run : Created 8 two_keys (tbthread_key_create 8 two_keys)
tbthread_key_create-Created_run = tbthread_key_create-Created 8 two_keys

getspecific-setspecific_run :
    ((tbthread_setspecific 7 0 6 two_keys).1 ≡ ok)
    × (tbthread_getspecific 7 0 (tbthread_setspecific 7 0 6 two_keys).0 ≡ 6)
getspecific-setspecific_run = getspecific-setspecific 7 0 6 7 0 two_keys

getspecific-key_delete_run :
    ((tbthread_key_delete 1 two_keys).1 ≡ ok)
    × (is_usable (tbthread_key_delete 1 two_keys).0 1 ≡ false)
    × (tbthread_getspecific 7 1 (tbthread_key_delete 1 two_keys).0 ≡ 0)
getspecific-key_delete_run = getspecific-key_delete 1 7 1 two_keys (omega arith)

-- Key 0 is set, deleted and created again.
abbrev earlier_life : List Call
earlier_life = create 0 ∷ set 4 0 17 ∷ delete 0 ∷ []

new_key_null_example :
    tbthread_getspecific 4 0 (tbthread_key_create 9 (calls earlier_life no_keys)).0 ≡ 0
unfolding calls tbthread_key_create tbthread_key_delete tbthread_setspecific find_unused
new_key_null_example = new_key_null earlier_life 9 0 4 (omega arith) refl

destructors-AllSet_run : AllSet (tb_tls_call_destructors leave 7 two_keys).0
destructors-AllSet_run = destructors-AllSet leave 7 two_keys

destructors-due_example :
    ((tb_tls_call_destructors leave 7 two_keys).0 ≡ due max_keys 7 0 two_keys)
    × ((u j : ℕ)
        → ((tb_tls_call_destructors leave 7 two_keys).1.tls u j).value ≡ (
            if 7 == u && (ltb j max_keys && has_due two_keys 7 j)
            then 0
            else (two_keys.tls u j).value))
destructors-due_example = destructors-due 7 two_keys

due_value : due max_keys 7 0 two_keys ≡ (99, 5) ∷ []
unfolding tbthread_getspecific
due_value = refl

key_given_twice_run :
    let second = create_steps 1 21 no_keys.keys (checking 3) in
    let first = create_steps 4 20 second.0 (checking 3) in
    let again = create_steps 3 21 first.0 second.1 in
    (first.1 ≡ given 3) × (again.1 ≡ given 3) × (key_unused (again.0 3) ≡ true)
key_given_twice_run = key_given_twice no_keys.keys 3 20 21 (omega arith) refl (omega arith)
