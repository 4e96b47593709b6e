-- ===== src/Trigger/BySet/Rerun.antt =====
-- trigger.hpp, `BySetTrigger`: which source functions are waiting to be run again. The cache's keys
-- are a key followed by a session, and session ids have one length.
use demeter.Prelude.{
  if◌then◌else◌, contains, length, length-append, Map, or_default, lookup, update, lookup-insert,
  lookup-erase, lookup-update, ◌==◌, Str, str_eqb_iff, nat_eq, str_eq, eq_refl, ℕ, ◌≡◌, refl, ap,
  ◌⊎◌, inl, inr, true, ◌&&◌, some, List, [], ◌∷◌, ◌++◌, arith,
}
use demeter.Names.{BucketKey}
use demeter.Trigger.{TriggerFunctionMetadata, waiting}
use demeter.Trigger.BySet.{BySetTrigger, check_prepared, action_for_new_object, notify_source_func}

-- What waits for an object of a key in a session.
abbrev pub awaited : BySetTrigger → Str → Str → List TriggerFunctionMetadata
awaited t key session = waiting (key ++ session) t.session_status_cache

append_injective : (k j s r : Str) → length s ≡ length r → k ++ s ≡ j ++ r → (k ≡ j) × (s ≡ r)
append_injective [] [] s r l e = (refl, e)
append_injective [] (y ∷ j) s r l e = absurd (omega (arith, ap length e, length-append j r))
append_injective (x ∷ k) [] s r l e = absurd (omega (arith, ap length e, length-append k s))
append_injective (x ∷ k) (y ∷ j) s r l e =
    let h : (k ++ s ≡ j ++ r) × (x ≡ y) = (cc, cc) in
    let p = append_injective k j s r l h.0 in (cc (p.0, h.1), p.1)

name_eq : (k j s r : Str) → length s ≡ length r → ((k ++ s) == (j ++ r)) ≡ (k == j && s == r)
name_eq k j s r l = ground (
  arith,
  str_eqb_iff (k ++ s) (j ++ r),
  str_eqb_iff k j,
  str_eqb_iff s r,
  append_injective k j s r l,
)

List-cases : (m : Map Str Str) → (m ≡ []) ⊎ ((p : Str × Str) × (ps : Map Str Str) × (m ≡ p ∷ ps))
List-cases [] = inl refl
List-cases (p ∷ ps) = inr (p, ps, refl)

-- With sessions of one length: a source function that is noted, for a trigger that knows some
-- source functions, is awaited under its own key and session, and what is awaited under any other
-- key or session stays as it was.
pub awaited-notify_source_func :
    (t : BySetTrigger) (func key session key' session' : Str) (args : List Str) (flag : ℕ)
    → lookup func t.func_key_map ≡ some key
    → length session ≡ length session'
    → awaited (notify_source_func t func session args flag) key' session' ≡ (
        if key == key' && session == session'
        then record { func_name = func; func_args = args; arg_flag = flag } ∷ []
        else awaited t key' session')
unfolding notify_source_func
awaited-notify_source_func t func key session key' session' args flag e l =
    elim (List-cases t.func_key_map) [
      | inl unknown ↦ unfold lookup in ground (arith, unknown, e)
      | inr (p, ps, known) ↦
          rw (known, notify_source_func, own)
            (ground (
              arith,
              lookup-insert (key ++ session) (key' ++ session')
                  (record { func_name = func; func_args = args; arg_flag = flag })
                  t.session_status_cache,
              name_eq key key' session session' l,
            ))
    ]
  where
    own : or_default [] (lookup func (update func [] (λ (k : Str). k) t.func_key_map)) ≡ key
    own = rw (lookup-update func func [] (λ (k : Str). k) t.func_key_map, eq_refl {A = Str} func, e)

-- With sessions of one length: an object of a key of the set ends the wait for that key in that
-- session, and for no other key and no other session.
pub awaited-action_for_new_object :
    (t : BySetTrigger) (b : BucketKey) (key session : Str)
    → contains t.key_set b.key ≡ true
    → length b.session ≡ length session
    → awaited (action_for_new_object t b).0 key session
      ≡ (if b.key == key && b.session == session then [] else awaited t key session)
unfolding action_for_new_object check_prepared
awaited-action_for_new_object t b key session h l = ground (
  arith,
  lookup-erase (b.key ++ b.session) (key ++ session) t.session_status_cache,
  name_eq b.key key b.session session l,
)
