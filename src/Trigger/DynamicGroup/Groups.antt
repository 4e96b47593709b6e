-- ===== src/Trigger/DynamicGroup/Groups.antt =====
-- trigger.hpp, `DynamicGroupTrigger`: data waits with its group until the control set is complete.
use demeter.Prelude.{
  nat_eqb, if◌then◌else◌, Bool-cases, false_of_not, contains, add, IsSetList, IsSubset,
  contains-add, add-IsSetList, add-IsSubset, length-eq_iff, length, Map, or_default, lookup, update,
  lookup-update, ◌==◌, Str, str_eqb_iff, nat_eq, str_eq, eq_refl, eq_false, ◌<◌, ◌≡◌, refl, sym, ap,
  ◌≢◌, ◌↔◌, ◌⊎◌, inl, inr, true, List, [], ◌∷◌, ◌++◌, map, arith,
}
use demeter.Names.{BucketKey}
use demeter.Trigger.Feed.{sent}
use demeter.Trigger.DynamicGroup.{
  DynamicGroupTrigger, control_group_prefix, group_of, group_actions, check_control,
  action_for_new_object,
}

-- The control keys are a set, and those that have arrived are a smaller set of them.
pub record IsReady (t : DynamicGroupTrigger) : Type 0 where
  pub keys : IsSetList t.control_group
  pub distinct : IsSetList t.cur_control_keys
  pub within : IsSubset t.cur_control_keys t.control_group
  pub incomplete : length t.cur_control_keys < length t.control_group

-- With the new object, every control key has arrived.
abbrev pub Completes : DynamicGroupTrigger → BucketKey → Type 0
Completes t b = IsSubset t.control_group (add b.key t.cur_control_keys)

-- The key waits with its group.
abbrev pub IsStored : DynamicGroupTrigger → Str → Type 0
IsStored t key = contains (or_default [] (lookup (group_of key) t.data_group_keys_map)) key ≡ true

-- The pair is one of those in the list.
abbrev pub Has : Str × Str → List (Str × Str) → Type 0
Has p [] = ⊥
Has p (q ∷ qs) = (p ≡ q) ⊎ Has p qs

Has-append_left : (p : Str × Str) (xs ys : List (Str × Str)) → Has p xs → Has p (xs ++ ys)
Has-append_left p [] ys h = absurd h
Has-append_left p (x ∷ xs) ys (inl e) = inl e
Has-append_left p (x ∷ xs) ys (inr h) = inr (Has-append_left p xs ys h)

Has-append_right : (p : Str × Str) (xs ys : List (Str × Str)) → Has p ys → Has p (xs ++ ys)
Has-append_right p [] ys h = h
Has-append_right p (x ∷ xs) ys h = inr (Has-append_right p xs ys h)

Has-map :
    (session key : Str) (keys : List Str)
    → contains keys key ≡ true
    → Has (session, key) (map (λ k. (session, k)) keys)
unfolding contains
Has-map session key [] h = cc
Has-map session key (k ∷ keys) h = elim (Bool-cases (k == key)) [
  | inl same ↦ inl (ground (arith, str_eqb_iff k key))
  | inr other ↦ inr (Has-map session key keys (ground arith))
]

group_actions-Has :
    (function session group key : Str) (groups : Map Str (List Str))
    → contains (or_default [] (lookup group groups)) key ≡ true
    → Has (session, key) (sent (group_actions function session groups))
unfolding group_actions sent lookup
group_actions-Has function session group key [] h = unfold contains in cc
group_actions-Has function session group key ((g, keys) ∷ groups) h =
    elim (Bool-cases (g == group)) [
      | inl same ↦
          Has-append_left _ (map (λ k. (session, k)) keys) _
            (Has-map session key keys (ground arith))
      | inr other ↦
          Has-append_right _ (map (λ k. (session, k)) keys) _
            (group_actions-Has function session group key groups (ground arith))
    ]

module _ (t : DynamicGroupTrigger) (b : BucketKey) where
  -- A data object never fires the trigger: it is stored, and what is stored stays so.
  pub action_for_new_object-data :
      group_of b.key ≢ control_group_prefix
      → let r = action_for_new_object t b in
        (r.1 ≡ [])
        × IsStored r.0 b.key
        × ((key : Str) → IsStored t key → IsStored r.0 key)
        × (r.0.cur_control_keys ≡ t.cur_control_keys)
  unfolding action_for_new_object
  action_for_new_object-data h = rw (eq_false (group_of b.key) control_group_prefix h) (
    refl,
    ground (
      arith,
      after b.key,
      contains-add b.key b.key (kept b.key),
      eq_refl {A = Str} b.key,
      eq_refl {A = Str} (group_of b.key),
    ),
    (λ key m. ground (arith, after key, contains-add b.key key (kept key), kept_eq key, m)),
    refl,
  )
    where
      kept : Str → List Str
      kept key = or_default [] (lookup (group_of b.key) t.data_group_keys_map)

      kept_eq :
          (key : Str)
          → (group_of b.key == group_of key) ≡ true
          → or_default [] (lookup (group_of key) t.data_group_keys_map) ≡ kept key
      kept_eq key e =
          ap (λ g. or_default [] (lookup g t.data_group_keys_map))
            (sym ((str_eqb_iff (group_of b.key) (group_of key)).0 e))

      after :
          (key : Str)
          → or_default []
              (lookup (group_of key) (update (group_of b.key) [] (add b.key) t.data_group_keys_map))
            ≡ (if group_of b.key == group_of key
                then add b.key (kept key)
                else or_default [] (lookup (group_of key) t.data_group_keys_map))
      after key = ground (
        arith,
        lookup-update (group_of b.key) (group_of key) [] (add b.key) t.data_group_keys_map,
      )

  -- In a ready trigger, an object of a control key fires the trigger exactly when every control
  -- key has then arrived. Then each stored key is handed over, under the session of that object,
  -- and the trigger starts afresh; otherwise there is no action, the control key is noted and what
  -- is stored stays.
  pub action_for_new_object-control :
      IsReady t
      → group_of b.key ≡ control_group_prefix
      → contains t.control_group b.key ≡ true
      → let r = action_for_new_object t b in
        (Completes t b
          → ((key : Str) → IsStored t key → Has (b.session, key) (sent r.1))
            × (r.0.data_group_keys_map ≡ [])
            × (r.0.cur_control_keys ≡ []))
        × (¬ Completes t b
            → (r.1 ≡ [])
              × (r.0.data_group_keys_map ≡ t.data_group_keys_map)
              × (r.0.cur_control_keys ≡ add b.key t.cur_control_keys))
  unfolding action_for_new_object
  action_for_new_object-control ready c k =
      rw (is_control, k, check_control)
        (
          λ full. rw (all_arrived.1 full) (
            λ key m. group_actions-Has t.base.target_function b.session (group_of key) key _ m,
            refl,
            refl,
          ),
          λ short. rw (false_of_not _ (λ e. short (all_arrived.0 e))) (refl, refl, refl),
        )
    where
      all_arrived :
          (nat_eqb (length (add b.key t.cur_control_keys)) (length t.control_group) ≡ true)
          ↔ Completes t b
      all_arrived =
          length-eq_iff (add b.key t.cur_control_keys) t.control_group
            (add-IsSetList b.key _ ready.distinct) ready.keys
            (add-IsSubset b.key _ t.control_group ready.within k)

      is_control : (group_of b.key == control_group_prefix) ≡ true
      is_control = (str_eqb_iff (group_of b.key) control_group_prefix).1 c
