-- ===== src/Coordinator/Triggers.antt =====
-- pheromone/src/coordinator/trigger_op_handler.cpp: adding and deleting triggers of a bucket.
pub mod Outcomes
use demeter.Prelude.{
  if◌then◌else◌, ◌>>=◌, is_some, or_default, lookup, insert, update, ◌==◌, Str, nat_eq, str_eq, ℕ,
  Bool, true, false, Option, none, some, List, [], ◌∷◌, ◌++◌,
}
use demeter.Trigger.Any.{
  TriggerPointer, PrimitiveType, Protobuf, gen_trigger_pointer, set_trigger_option, get_type,
  get_trigger_name, dump_pritimive,
}
use demeter.Trigger.ByTime.{TimePoint}
use demeter.Coordinator.{
  Coordinator, KvsError, success, bucket_ne, RerunHint, TriggerEntity, UpdateCoordMsg, empty_update,
  empty_entity, TriggerOperationResponse, Outgoing, trigger_response, to_nodes,
}

pub data TriggerOperationType : Type 0 where
  add_trigger delete_trigger : TriggerOperationType
  unknown : ℕ → TriggerOperationType

pub record TriggerOperationRequest (B : Type 0) : Type 0 where
  pub operation_type : TriggerOperationType
  pub app_name : Str
  pub bucket_name : Str
  pub trigger_name : Str
  pub trigger_option : ℕ
  pub primitive_type : PrimitiveType
  pub primitive : B
  pub request_id : Str
  pub response_address : Str
  pub hints : List RerunHint

-- The loop that erases the triggers of a name, and `find_trigger`.
unfoldable pub erase_triggers : Str → List TriggerPointer → List TriggerPointer × Bool
erase_triggers name [] = ([], false)
erase_triggers name (t ∷ ts) =
    let (kept, found) = erase_triggers name ts in
    if get_trigger_name t == name then (kept, true) else (t ∷ kept, found)

-- The state, the error and the update that the workers are sent.
abbrev pub Outcome : Type 0 → Type 0
Outcome B = Coordinator × KvsError × UpdateCoordMsg B

module _ {B : Type 0} (pb : Protobuf B) where
  -- The entity for the workers; time windows stay with the coordinator.
  unfoldable pub trigger_entities :
      TriggerOperationRequest B → TriggerPointer → List (TriggerEntity B)
  trigger_entities request t = elim (get_type t) [
    | PrimitiveType.by_time ↦ []
    | _ ↦
        record {
          bucket_name = request.bucket_name;
          trigger_name = request.trigger_name;
          trigger_option = request.trigger_option;
          primitive_type = request.primitive_type;
          primitive = some (dump_pritimive pb t);
          session = [];
          hints = request.hints;
        }
        ∷ []
  ]

  -- Of an unknown primitive type the null pointer is logged and then dereferenced.
  unfoldable pub add_trigger_to :
      TimePoint → Coordinator → TriggerOperationRequest B → UpdateCoordMsg B → Option (Outcome B)
  unfolding trigger_entities
  add_trigger_to now c request msg =
      if is_some (lookup request.bucket_name c.bucket_app_map)
      then elim (gen_trigger_pointer pb now request.primitive_type request.trigger_name
          request.primitive) [
            | none ↦ none
            | some t ↦
                let t' = set_trigger_option t request.trigger_option in
                some (
                  record c {
                    bucket_triggers_map =
                        update request.bucket_name [] (λ ts. ts ++ t' ∷ []) c.bucket_triggers_map;
                  },
                  success,
                  record msg { msg_type = 0; triggers = trigger_entities request t' },
                )
          ]
      else some (c, bucket_ne, msg)

  -- A trigger that is not found leaves the error at its default, `SUCCESS`.
  unfoldable pub delete_trigger_from :
      Coordinator → TriggerOperationRequest B → UpdateCoordMsg B → Outcome B
  unfolding erase_triggers
  delete_trigger_from c request msg =
      if is_some (lookup request.bucket_name c.bucket_app_map)
      then (let (kept, found) =
            erase_triggers request.trigger_name
              (or_default [] (lookup request.bucket_name c.bucket_triggers_map)) in
          (
            record c {
              bucket_triggers_map = insert request.bucket_name kept c.bucket_triggers_map;
            },
            success,
            if found
                then record msg {
                  msg_type = 2;
                  triggers =
                      record empty_entity {
                        bucket_name = request.bucket_name;
                        trigger_name = request.trigger_name;
                      }
                      ∷ [];
                }
                else msg,
          ))
      else (c, bucket_ne, msg)

  unfoldable pub trigger_operation :
      TimePoint → Coordinator → TriggerOperationRequest B → UpdateCoordMsg B → Option (Outcome B)
  unfolding add_trigger_to delete_trigger_from
  trigger_operation now c request msg = elim request.operation_type [
    | add_trigger ↦ add_trigger_to now c request msg
    | delete_trigger ↦ some (delete_trigger_from c request msg)
    | unknown code ↦ some (c, success, msg)
  ]

  unfoldable pub trigger_op_handler :
      {D : Type 0}
      → TimePoint
      → Str
      → ℕ
      → Coordinator
      → TriggerOperationRequest B
      → Option (Coordinator × List (Outgoing B D))
  unfolding trigger_operation
  trigger_op_handler now private_ip thread_id c request =
      let msg = record empty_update {
        ip = private_ip;
        thread_id = thread_id;
        app_name = request.app_name;
      } in
      do
        (c', error, update) ← trigger_operation now c request msg
        some (
          c',
          trigger_response request.response_address (record {
            bucket_name = request.bucket_name;
            trigger_name = request.trigger_name;
            response_id = request.request_id;
            error = error;
          })
              ∷ to_nodes c'.node_status_map update,
        )
