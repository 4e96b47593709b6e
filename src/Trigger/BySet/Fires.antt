-- ===== src/Trigger/BySet/Fires.antt =====
-- trigger.hpp, `BySetTrigger`: the comparison of sizes decides whether every key has arrived.
use demeter.Prelude.{
  nat_eqb, if◌then◌else◌, Bool-cases, false_of_not, contains, add, IsSetList, IsSubset,
  add-IsSetList, length-IsSubset-le, add-IsSubset, length-eq_iff, length, Map, or_default, lookup,
  erase, update, lookup-erase, lookup-update, ◌==◌, Str, nat_eq, str_eq, eq_refl, ◌<◌, ◌≡◌, refl,
  ◌↔◌, inl, inr, true, List, [], ◌∷◌, map, arith,
}
use demeter.Names.{BucketKey}
use demeter.Trigger.{StatusCache, TriggerAction}
use demeter.Trigger.BySet.{check_prepared, action_for_new_object, BySetTrigger, prepared_keys}

-- The keys are a set, and what has arrived in a session is a smaller set of them.
pub record IsReady (t : BySetTrigger) : Type 0 where
  pub keys : IsSetList t.key_set
  pub distinct : (s : Str) → IsSetList (prepared_keys t s)
  pub within : (s : Str) → IsSubset (prepared_keys t s) t.key_set
  pub incomplete :
      (s k : Str) → contains t.key_set k ≡ true → length (prepared_keys t s) < length t.key_set

-- With the new object, every key of the set has arrived in its session.
abbrev pub Completes : BySetTrigger → BucketKey → Type 0
Completes t b = IsSubset t.key_set (add b.key (prepared_keys t b.session))

abbrev pub full_action : BySetTrigger → Str → TriggerAction
full_action t session = record {
  function = t.base.target_function;
  session_keys = map (λ key. (session, key)) t.key_set;
}

module _ (t : BySetTrigger) (b : BucketKey) (ready : IsReady t) where
  arrived : List Str
  arrived = add b.key (prepared_keys t b.session)

  arrived-IsSetList : IsSetList arrived
  unfolding arrived
  arrived-IsSetList = add-IsSetList b.key _ (ready.distinct b.session)

  arrived-IsSubset : contains t.key_set b.key ≡ true → IsSubset arrived t.key_set
  unfolding arrived
  arrived-IsSubset h = add-IsSubset b.key _ t.key_set (ready.within b.session) h

  full_iff :
      contains t.key_set b.key ≡ true
      → (nat_eqb (length arrived) (length t.key_set) ≡ true) ↔ Completes t b
  unfolding arrived
  full_iff h = length-eq_iff arrived t.key_set arrived-IsSetList ready.keys (arrived-IsSubset h)

  abbrev updated : Map Str (List Str)
  updated = update b.session [] (add b.key) t.session_prepared_keys_map

  updated-arrived : or_default [] (lookup b.session updated) ≡ arrived
  unfolding arrived
  updated-arrived = rw (
    lookup-update b.session b.session [] (add b.key) t.session_prepared_keys_map,
    eq_refl b.session,
  )

  prepared_keys-updated :
      (s : Str)
      → or_default [] (lookup s updated) ≡ (if b.session == s then arrived else prepared_keys t s)
  unfolding arrived
  prepared_keys-updated s =
      ground (arith, lookup-update b.session s [] (add b.key) t.session_prepared_keys_map)

  prepared_keys-erased :
      (s : Str)
      → or_default [] (lookup s (erase b.session updated))
        ≡ (if b.session == s then [] else prepared_keys t s)
  prepared_keys-erased s = ground (arith, lookup-erase b.session s updated, prepared_keys-updated s)

  -- In a ready trigger, an object of a key of the set fires the trigger exactly when all keys of
  -- the set have then arrived in the object's session: the one action names the whole set and the
  -- session starts afresh. If some key is missing, there is no action and the key is kept. What
  -- other sessions have collected is left alone.
  pub action_for_new_object-fires :
      contains t.key_set b.key ≡ true
      → let r = action_for_new_object t b in
        (Completes t b
          → (r.1 ≡ full_action t b.session ∷ [])
            × ((s : Str)
                → prepared_keys r.0 s ≡ (if b.session == s then [] else prepared_keys t s)))
        × (¬ Completes t b
            → (r.1 ≡ [])
              × ((s : Str)
                  → prepared_keys r.0 s ≡ (
                      if b.session == s
                      then add b.key (prepared_keys t b.session)
                      else prepared_keys t s)))
  unfolding action_for_new_object
  action_for_new_object-fires h =
      rw (h, check_prepared, updated-arrived)
        (
          λ c. rw ((full_iff h).1 c) (refl, prepared_keys-erased),
          λ n.
              rw (false_of_not _ (λ e. n ((full_iff h).0 e)))
                (refl, unfold arrived in prepared_keys-updated),
        )

  -- To replace what one session has collected.
  replaced-IsReady :
      (p : List Str) (m : Map Str (List Str)) (cache : StatusCache)
      → ((s : Str) → or_default [] (lookup s m) ≡ (if b.session == s then p else prepared_keys t s))
      → IsSetList p
      → IsSubset p t.key_set
      → length p < length t.key_set
      → IsReady (record t { session_prepared_keys_map = m; session_status_cache = cache })
  replaced-IsReady p m cache reads d w n = record {
    keys = ready.keys;
    distinct = λ s. ground (arith, reads s, ready.distinct s);
    within = λ s a k. ground (arith, reads s, w a, ready.within s a);
    incomplete = λ s k h. ground (arith, reads s, ready.incomplete s k h);
  }

  -- A ready trigger is ready after every object, so it fires again once the set is complete again.
  pub action_for_new_object-IsReady : IsReady (action_for_new_object t b).0
  unfolding action_for_new_object
  action_for_new_object-IsReady = elim (Bool-cases (contains t.key_set b.key)) [
    | inr out ↦ rw (out, action_for_new_object) ready
    | inl h ↦ elim (Bool-cases (nat_eqb (length arrived) (length t.key_set))) [
      | inl full ↦
          rw (h, check_prepared, updated-arrived, full)
            (replaced-IsReady [] _ _ prepared_keys-erased tt (λ a k. unfold contains in cc)
              (omega (arith, ready.incomplete b.session b.key h)))
      | inr short ↦
          rw (h, check_prepared, updated-arrived, short)
            (replaced-IsReady arrived _ _ prepared_keys-updated arrived-IsSetList
              (arrived-IsSubset h)
              (ground (
                arith,
                length-IsSubset-le arrived t.key_set arrived-IsSetList ready.keys
                    (arrived-IsSubset h),
              )))
    ]
  ]
