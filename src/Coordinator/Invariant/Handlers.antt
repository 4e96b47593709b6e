-- ===== src/Coordinator/Invariant/Handlers.antt =====
-- Every handler of pheromone/src/coordinator but `notify_handler` keeps the maps consistent.
use demeter.Prelude.{
  Bool-cases, Option-cases, Ensures, is_some, lookup, lookup-insert, lookup-erase, lookup-update,
  Str, str_eqb_iff, nat_eq, str_eq, ◌≡◌, refl, subst, inl, inr, Option, none, some, List, [], ◌∷◌,
  ◌++◌, arith,
}
use demeter.Trigger.Any.{set_trigger_option, gen_trigger_pointer, Protobuf}
use demeter.Trigger.ByTime.{TimePoint}
use demeter.Coordinator.{
  TriggerPointer, DependencyType, Coordinator, UpdateCoordMsg, DataDependency,
}
use demeter.Coordinator.Invariant.{
  IsConsistent, triggers_of, give-IsConsistent, take-IsConsistent, change-IsConsistent,
}
use demeter.Coordinator.Buckets.{
  BucketOperationRequest, BucketOperationType, bucket_operation, create, delete,
}
use demeter.Coordinator.Triggers.{
  erase_triggers, TriggerOperationRequest, TriggerOperationType, trigger_operation, add_trigger_to,
  delete_trigger_from, Outcome,
}
use demeter.Coordinator.Apps.{
  bucket_of, dependency_trigger, register_dependencies, register_dependency, register_indirect,
  add_bucket,
}

create-IsConsistent :
    (c : Coordinator) (request : BucketOperationRequest)
    → IsConsistent c
    → IsConsistent (create c request).0
unfolding create
create-IsConsistent c request ok =
    elim (Bool-cases (is_some (lookup request.bucket_name c.bucket_app_map))) [
      | inl exists ↦ rw (exists, create) ok
      | inr fresh ↦
          rw (fresh, create)
            (give-IsConsistent c ok request.app_name request.bucket_name c.bucket_triggers_map
              (λ j e. refl))
    ]

delete-IsConsistent :
    (c : Coordinator) (request : BucketOperationRequest)
    → IsConsistent c
    → IsConsistent (delete c request).0
unfolding delete
delete-IsConsistent c request ok =
    elim (Bool-cases (is_some (lookup request.bucket_name c.bucket_app_map))) [
      | inr missing ↦ rw (missing, delete) ok
      | inl exists ↦
          rw (exists, delete)
            (take-IsConsistent c ok request.app_name request.bucket_name _ (λ j. ground (
              arith,
              str_eqb_iff request.bucket_name j,
              lookup-erase request.bucket_name j c.bucket_triggers_map,
            )))
    ]

-- The maps stay consistent under every bucket operation.
pub bucket_operation-IsConsistent :
    (c : Coordinator) (request : BucketOperationRequest)
    → IsConsistent c
    → IsConsistent (bucket_operation c request).0
unfolding bucket_operation create delete
bucket_operation-IsConsistent c request ok = go request.operation_type refl
  where
    go :
        (o : BucketOperationType)
        → request.operation_type ≡ o
        → IsConsistent (bucket_operation c request).0
    go BucketOperationType.create_bucket e =
        rw (e, bucket_operation) (create-IsConsistent c request ok)
    go BucketOperationType.delete_bucket e =
        rw (e, bucket_operation) (delete-IsConsistent c request ok)
    go (BucketOperationType.unknown code) e = rw (e, bucket_operation) ok

module _ {B : Type 0} (pb : Protobuf B) (now : TimePoint) where
  abbrev Consistent : Option (Outcome B) → Type 0
  Consistent = Ensures (λ r. IsConsistent r.0)

  add_trigger_to-IsConsistent :
      (c : Coordinator) (request : TriggerOperationRequest B) (msg : UpdateCoordMsg B)
      → IsConsistent c
      → Consistent (add_trigger_to pb now c request msg)
  unfolding add_trigger_to
  add_trigger_to-IsConsistent c request msg ok =
      elim (Bool-cases (is_some (lookup request.bucket_name c.bucket_app_map))) [
        | inr missing ↦ rw (missing, add_trigger_to) ok
        | inl exists ↦
            elim (Option-cases (
              gen_trigger_pointer pb now request.primitive_type request.trigger_name
                request.primitive)) [
                  | inl null ↦ rw (exists, add_trigger_to, null) tt
                  | inr (t, made) ↦
                      rw (exists, add_trigger_to, made)
                        (change-IsConsistent c ok [] request.bucket_name _ exists (λ j other.
                          ground (
                            arith,
                            other,
                            lookup-update request.bucket_name j []
                                (λ (ts : List TriggerPointer).
                                  ts ++ set_trigger_option t request.trigger_option ∷ [])
                                c.bucket_triggers_map,
                          )))
                ]
      ]

  delete_trigger_from-IsConsistent :
      (c : Coordinator) (request : TriggerOperationRequest B) (msg : UpdateCoordMsg B)
      → IsConsistent c
      → IsConsistent (delete_trigger_from pb c request msg).0
  unfolding delete_trigger_from
  delete_trigger_from-IsConsistent c request msg ok =
      elim (Bool-cases (is_some (lookup request.bucket_name c.bucket_app_map))) [
        | inr missing ↦ rw (missing, delete_trigger_from) ok
        | inl exists ↦
            rw (exists, delete_trigger_from)
              (change-IsConsistent c ok [] request.bucket_name _ exists (λ j other. ground (
                arith,
                other,
                lookup-insert request.bucket_name j
                    (erase_triggers request.trigger_name (triggers_of c request.bucket_name)).0
                    c.bucket_triggers_map,
              )))
      ]

  -- The maps stay consistent under every trigger operation that returns.
  pub trigger_operation-IsConsistent :
      (c : Coordinator) (request : TriggerOperationRequest B) (msg : UpdateCoordMsg B)
      → IsConsistent c
      → Consistent (trigger_operation pb now c request msg)
  unfolding trigger_operation add_trigger_to delete_trigger_from
  trigger_operation-IsConsistent c request msg ok = go request.operation_type refl
    where
      go :
          (o : TriggerOperationType)
          → request.operation_type ≡ o
          → Consistent (trigger_operation pb now c request msg)
      go TriggerOperationType.add_trigger e =
          rw (e, trigger_operation) (add_trigger_to-IsConsistent c request msg ok)
      go TriggerOperationType.delete_trigger e =
          rw (e, trigger_operation) (delete_trigger_from-IsConsistent c request msg ok)
      go (TriggerOperationType.unknown code) e = rw (e, trigger_operation) ok

add_bucket-IsConsistent :
    (c : Coordinator) (app bucket : Str) (trigger : Option TriggerPointer)
    → IsConsistent c
    → IsConsistent (add_bucket c app bucket trigger)
unfolding add_bucket
add_bucket-IsConsistent c app bucket none ok =
    give-IsConsistent c ok app bucket c.bucket_triggers_map (λ j e. refl)
add_bucket-IsConsistent c app bucket (some t) ok = give-IsConsistent c ok app bucket _ (λ j other.
    ground (
      arith,
      other,
      lookup-update bucket j [] (λ (ts : List TriggerPointer). ts ++ t ∷ []) c.bucket_triggers_map,
    ))

module _ {B : Type 0} (pb : Protobuf B) (now : TimePoint) (app : Str) where
  abbrev Registered : Option (Coordinator × UpdateCoordMsg B) → Type 0
  Registered = Ensures (λ r. IsConsistent r.0)

  register_indirect-IsConsistent :
      (dep : DataDependency) (c : Coordinator) (msg : UpdateCoordMsg B)
      → IsConsistent c
      → Registered (register_indirect pb now app dep (c, msg))
  unfolding register_indirect
  register_indirect-IsConsistent dep c msg ok = go dep.tgt_functions refl
    where
      go :
          (tgts : List Str)
          → dep.tgt_functions ≡ tgts
          → Registered (register_indirect pb now app dep (c, msg))
      go [] e = rw (e, register_indirect) tt
      go (tgt ∷ tgts) e = elim (Option-cases (dependency_trigger now dep tgt)) [
        | inl throws ↦ rw (e, register_indirect, throws) tt
        | inr (trigger, made) ↦
            rw (e, register_indirect, made)
              (add_bucket-IsConsistent c app (bucket_of tgt) trigger ok)
      ]

  register_dependency-IsConsistent :
      (dep : DataDependency) (c : Coordinator) (msg : UpdateCoordMsg B)
      → IsConsistent c
      → Registered (register_dependency pb now app dep (c, msg))
  unfolding register_dependency register_indirect
  register_dependency-IsConsistent dep c msg ok = go dep.type_ refl
    where
      go :
          (type_ : DependencyType)
          → dep.type_ ≡ type_
          → Registered (register_dependency pb now app dep (c, msg))
      go DependencyType.direct e = rw (e, register_dependency) ok
      go DependencyType.many_to_one e =
          rw (e, register_dependency) (register_indirect-IsConsistent dep c msg ok)
      go DependencyType.k_out_of_n e =
          rw (e, register_dependency) (register_indirect-IsConsistent dep c msg ok)
      go DependencyType.periodic e =
          rw (e, register_dependency) (register_indirect-IsConsistent dep c msg ok)
      go (DependencyType.unknown code) e =
          rw (e, register_dependency) (register_indirect-IsConsistent dep c msg ok)

  -- The maps stay consistent under every registration of an application that returns.
  pub register_dependencies-IsConsistent :
      (deps : List DataDependency) (s : Coordinator × UpdateCoordMsg B)
      → IsConsistent s.0
      → Registered (register_dependencies pb now app deps s)
  unfolding register_dependencies register_dependency register_indirect
  register_dependencies-IsConsistent [] s ok = ok
  register_dependencies-IsConsistent (dep ∷ deps) (c, msg) ok =
      elim (Option-cases (register_dependency pb now app dep (c, msg))) [
        | inl throws ↦ rw (register_dependencies, throws) tt
        | inr (s, goes) ↦
            rw (register_dependencies, goes)
              (register_dependencies-IsConsistent deps s
                (subst Registered goes (register_dependency-IsConsistent dep c msg ok)))
      ]
