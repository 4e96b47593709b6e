-- ===== src/Coordinator/Triggers/Outcomes.antt =====
-- pheromone/src/coordinator/trigger_op_handler.cpp: what a trigger operation does to the triggers
-- of a bucket, and when it does not return.
use demeter.Prelude.{
  Bool-cases, Option-cases, Ensures, All, Map, is_some, or_default, lookup, update, lookup-insert,
  lookup-update, ◌==◌, Str, str_eqb_iff, nat_eq, str_eq, eq_refl, ℕ, ◌≡◌, refl, subst, ◌↔◌, inl,
  inr, true, false, none, some, List, [], ◌∷◌, ◌++◌, arith,
}
use demeter.Trigger.Any.{
  TriggerPointer, PrimitiveType, Protobuf, gen_trigger_pointer, set_trigger_option,
  get_trigger_name,
}
use demeter.Trigger.ByTime.{TimePoint}
use demeter.Coordinator.{Coordinator, UpdateCoordMsg, success}
use demeter.Coordinator.Invariant.{owner, triggers_of}
use demeter.Coordinator.Triggers.{
  trigger_entities, erase_triggers, TriggerOperationRequest, TriggerOperationType, add_trigger,
  delete_trigger, trigger_operation, add_trigger_to, delete_trigger_from, Outcome,
}

-- No trigger of the list has the name.
abbrev pub Unused : Str → List TriggerPointer → Type 0
Unused name = All (λ t. (get_trigger_name t == name) ≡ false)

erase_triggers-Unused :
    (name : Str) (ts : List TriggerPointer) → Unused name (erase_triggers name ts).0
unfolding erase_triggers
erase_triggers-Unused name [] = tt
erase_triggers-Unused name (t ∷ ts) = elim (Bool-cases (get_trigger_name t == name)) [
  | inl same ↦ rw (erase_triggers, same) (erase_triggers-Unused name ts)
  | inr other ↦ rw (erase_triggers, other) (other, erase_triggers-Unused name ts)
]

-- The last of the triggers has the name, and it alone.
erase_triggers-last :
    (name : Str) (ts : List TriggerPointer) (t : TriggerPointer)
    → Unused name ts
    → (get_trigger_name t == name) ≡ true
    → erase_triggers name (ts ++ t ∷ []) ≡ (ts, true)
unfolding erase_triggers
erase_triggers-last name [] t unused same = rw (erase_triggers, same)
erase_triggers-last name (u ∷ ts) t unused same =
    rw (erase_triggers, unused.0, erase_triggers-last name ts t unused.1 same)

module _ {B : Type 0} (pb : Protobuf B) (now : TimePoint) where
  gen_trigger_pointer-name :
      (ty : PrimitiveType) (name : Str) (primitive : B) (option : ℕ)
      → Ensures
          (λ t. get_trigger_name (set_trigger_option t option) ≡ name)
          (gen_trigger_pointer pb now ty name primitive)
  unfolding gen_trigger_pointer get_trigger_name set_trigger_option
  gen_trigger_pointer-name PrimitiveType.immediate name primitive option = refl
  gen_trigger_pointer-name PrimitiveType.by_name name primitive option = refl
  gen_trigger_pointer-name PrimitiveType.by_batch_size name primitive option = refl
  gen_trigger_pointer-name PrimitiveType.by_set name primitive option = refl
  gen_trigger_pointer-name PrimitiveType.dynamic_group name primitive option = refl
  gen_trigger_pointer-name PrimitiveType.redundant name primitive option = refl
  gen_trigger_pointer-name PrimitiveType.by_time name primitive option = refl
  gen_trigger_pointer-name (PrimitiveType.unknown code) name primitive option = tt

  module _ (c : Coordinator) (request : TriggerOperationRequest B) (msg : UpdateCoordMsg B) where
    -- In a bucket that exists, a trigger of a known type and of a name that the bucket does not use
    -- yet is added with success, at the end of the bucket's triggers; its deletion succeeds too and
    -- every bucket has the triggers that it had before.
    pub delete_trigger_from-add_trigger_to :
        (t : TriggerPointer) (msg' : UpdateCoordMsg B)
        → is_some (owner c request.bucket_name) ≡ true
        → gen_trigger_pointer pb now request.primitive_type request.trigger_name request.primitive
          ≡ some t
        → Unused request.trigger_name (triggers_of c request.bucket_name)
        → (added : Outcome B) × (add_trigger_to pb now c request msg ≡ some added)
          × (added.1 ≡ success)
          × (triggers_of added.0 request.bucket_name
              ≡ triggers_of c request.bucket_name
                ++ set_trigger_option t request.trigger_option ∷ [])
          × ((delete_trigger_from pb added.0 request msg').1 ≡ success)
          × ((bucket : Str)
              → triggers_of (delete_trigger_from pb added.0 request msg').0 bucket
                ≡ triggers_of c bucket)
    unfolding add_trigger_to delete_trigger_from
    delete_trigger_from-add_trigger_to t msg' exists made unused = (
      (
        record c {
          bucket_triggers_map =
              update request.bucket_name [] (λ ts. ts ++ t' ∷ []) c.bucket_triggers_map;
        },
        success,
        record msg { msg_type = 0; triggers = trigger_entities pb request t' },
      ),
      rw (add_trigger_to, exists, made),
      refl,
      after,
      rw (delete_trigger_from, exists),
      λ bucket.
          rw (delete_trigger_from, exists)
            (ground (
              arith,
              str_eqb_iff request.bucket_name bucket,
              lookup-insert request.bucket_name bucket (triggers_of c request.bucket_name) added,
              lookup-update request.bucket_name bucket [] append c.bucket_triggers_map,
              erase_triggers-last request.trigger_name (triggers_of c request.bucket_name) t' unused
                  same,
              after,
            )),
    )
      where
        t' : TriggerPointer
        t' = set_trigger_option t request.trigger_option

        append : List TriggerPointer → List TriggerPointer
        append ts = ts ++ t' ∷ []

        added : Map Str (List TriggerPointer)
        added = update request.bucket_name [] append c.bucket_triggers_map

        named : get_trigger_name t' ≡ request.trigger_name
        named =
            subst
              (Ensures (λ t.
                get_trigger_name (set_trigger_option t request.trigger_option)
                ≡ request.trigger_name))
              made
              (gen_trigger_pointer-name request.primitive_type request.trigger_name
                request.primitive request.trigger_option)

        same : (get_trigger_name t' == request.trigger_name) ≡ true
        same = (str_eqb_iff (get_trigger_name t') request.trigger_name).1 named

        after :
            or_default [] (lookup request.bucket_name added)
            ≡ triggers_of c request.bucket_name ++ t' ∷ []
        after = ground (
          arith,
          eq_refl request.bucket_name,
          lookup-update request.bucket_name request.bucket_name [] append c.bucket_triggers_map,
        )

    -- A trigger operation does not return exactly when it adds a trigger of an unknown type to a
    -- bucket that exists.
    pub trigger_operation-none : (trigger_operation pb now c request msg ≡ none) ↔ (
        (request.operation_type ≡ add_trigger)
        × (is_some (owner c request.bucket_name) ≡ true)
        × (gen_trigger_pointer pb now request.primitive_type request.trigger_name request.primitive
            ≡ none))
    unfolding trigger_operation add_trigger_to
    trigger_operation-none = (
      λ fault. go request.operation_type refl fault,
      λ (e, exists, null). rw (trigger_operation, e, add_trigger_to, exists, null),
    )
      where
        returns :
            is_some (trigger_operation pb now c request msg) ≡ true
            → ¬ (trigger_operation pb now c request msg ≡ none)
        returns r fault = cc

        go :
            (o : TriggerOperationType)
            → request.operation_type ≡ o
            → trigger_operation pb now c request msg ≡ none
            → (request.operation_type ≡ add_trigger)
              × (is_some (owner c request.bucket_name) ≡ true)
              × (gen_trigger_pointer pb now request.primitive_type request.trigger_name
                    request.primitive
                  ≡ none)
        go add_trigger e fault = elim (Bool-cases (is_some (owner c request.bucket_name))) [
          | inr missing ↦
              absurd (returns (rw (trigger_operation, e, add_trigger_to, missing)) fault)
          | inl exists ↦
              elim (Option-cases (
                gen_trigger_pointer pb now request.primitive_type request.trigger_name
                  request.primitive)) [
                    | inl null ↦ (e, exists, null)
                    | inr (t, made) ↦
                        absurd
                          (returns (rw (trigger_operation, e, add_trigger_to, exists, made)) fault)
                  ]
        ]
        go delete_trigger e fault = absurd (returns (rw (trigger_operation, e)) fault)
        go (TriggerOperationType.unknown code) e fault =
            absurd (returns (rw (trigger_operation, e)) fault)
