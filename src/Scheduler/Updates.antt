-- ===== src/Scheduler/Updates.antt =====
-- pheromone/include/scheduler/comm_helper.hpp, the first branch of `try_recv_msg`: what the
-- coordinator tells the scheduler of applications, dependencies and triggers.
use demeter.Prelude.{
  if◌then◌else◌, ◌>>=◌, add, length, get_elem?, Map, or_default, lookup, insert, update, ◌==◌, Str,
  nat_eq, str_eq, ℕ, zero, suc, Bool, false, Option, none, some, List, [], ◌∷◌, ◌++◌, map,
}
use demeter.Trigger.{RerunMetadata}
use demeter.Trigger.Any.{
  TriggerPointer, Protobuf, gen_trigger_pointer, set_trigger_option, set_rerun_metadata,
  get_trigger_name, clear,
}
use demeter.Trigger.ByTime.{TimePoint}
use demeter.Coordinator.{RerunHint, TriggerEntity, DependencyType, DataDependency, UpdateCoordMsg}
use demeter.Scheduler.{
  AppInfo, new_app_info, TriggerId, RerunTriggerTimeout, HandlerThread, Scheduler,
}

-- The trigger that an index stands for, changed.
unfoldable pub modify_at :
    (TriggerPointer → TriggerPointer) → ℕ → List TriggerPointer → List TriggerPointer
modify_at f i [] = []
modify_at f zero (t ∷ ts) = f t ∷ ts
modify_at f (suc i) (t ∷ ts) = t ∷ modify_at f i ts

-- The name of the trigger that an index stands for.
abbrev pub has_name : List TriggerPointer → Str → TriggerId → Bool
has_name triggers name i = elim (get_elem? triggers i) [
  | none ↦ false
  | some t ↦ get_trigger_name t == name
]

unfoldable pub clear_named : Str → Str → List TriggerId → List TriggerPointer → List TriggerPointer
unfolding modify_at
clear_named name session [] triggers = triggers
clear_named name session (i ∷ ids) triggers =
    clear_named name session ids
      (if has_name triggers name i then modify_at (λ t. clear t session) i triggers else triggers)

-- The first trigger of the name, taken out; `none` is the walk past the end where there is none.
unfoldable pub delete_named : List TriggerPointer → Str → List TriggerId → Option (List TriggerId)
delete_named triggers name [] = none
delete_named triggers name (i ∷ ids) =
    if has_name triggers name i
    then some ids
    else do rest ← delete_named triggers name ids; some (i ∷ rest)

abbrev metadata_of : RerunHint → RerunMetadata
metadata_of hint = record {
  source_func = hint.source_function;
  source_key = hint.source_key;
  timeout = hint.timeout;
}

unfoldable pub add_hints :
    TriggerId
    → List RerunHint
    → Map Str (List RerunTriggerTimeout)
    → Map Str (List RerunTriggerTimeout)
add_hints i [] timeouts = timeouts
add_hints i (hint ∷ hints) timeouts = add_hints i hints (
    update hint.source_function []
      (λ metas. metas ++ record { trigger_ptr = i; timeout = hint.timeout } ∷ []) timeouts)

abbrev add_direct : Str → Str → AppInfo → AppInfo
add_direct src_func tgt info = record info {
  direct_deps = update src_func [] (add tgt) info.direct_deps;
}

module _ {D : Type 0} where
  unfoldable pub add_functions : Str → List Str → Scheduler D → Scheduler D
  add_functions app_name [] s = s
  add_functions app_name (func ∷ funcs) s = add_functions app_name funcs (record s {
    app_info_map =
        update app_name new_app_info (λ info. record info { functions = add func info.functions })
          s.app_info_map;
    func_app_map = insert func app_name s.func_app_map;
  })

  unfoldable pub add_targets : Str → Str → List Str → Scheduler D → Scheduler D
  add_targets app_name src_func [] s = s
  add_targets app_name src_func (tgt ∷ tgts) s = add_targets app_name src_func tgts (record s {
    app_info_map = update app_name new_app_info (add_direct src_func tgt) s.app_info_map;
  })

  -- A dependency that is not direct is passed over; one without a source is an access past the end.
  unfoldable pub add_dependencies : Str → List DataDependency → Scheduler D → Option (Scheduler D)
  unfolding add_targets
  add_dependencies app_name [] s = some s
  add_dependencies app_name (dep ∷ deps) s = do
    s' ← elim dep.type_ [
      | DependencyType.direct ↦ do
        src_func ← get_elem? dep.src_functions 0
        some (add_targets app_name src_func dep.tgt_functions s)
      | _ ↦ some s
    ]
    add_dependencies app_name deps s'

  -- A new trigger of a bucket, with its hints.
  unfoldable pub install_trigger :
      {B : Type 0} → TriggerEntity B → Option TriggerPointer → Scheduler D → Scheduler D
  unfolding add_hints
  install_trigger trigger none s = s
  install_trigger trigger (some t) s =
      let i = length s.triggers in
      record s {
        triggers =
            s.triggers
            ++ set_rerun_metadata (set_trigger_option t trigger.trigger_option)
                (map metadata_of trigger.hints)
              ∷ [];
        bucket_triggers_map =
            update trigger.bucket_name [] (λ ids. ids ++ i ∷ []) s.bucket_triggers_map;
        func_trigger_timeout_map = add_hints i trigger.hints s.func_trigger_timeout_map;
      }

module _ {B D : Type 0} (pb : Protobuf B) (empty_primitive : B) (now : TimePoint) where
  unfoldable pub add_triggers :
      Str → HandlerThread → List (TriggerEntity B) → Scheduler D → Scheduler D
  unfolding install_trigger
  add_triggers app_name coord_thread [] s = s
  add_triggers app_name coord_thread (trigger ∷ ts) s =
      let bucket_name = trigger.bucket_name in
      let s' = record s {
        helper = record s.helper {
          bucket_coord_map = insert bucket_name coord_thread s.helper.bucket_coord_map;
        };
        app_info_map =
            update app_name new_app_info
              (λ info. record info { buckets = info.buckets ++ bucket_name ∷ [] }) s.app_info_map;
        bucket_app_map = insert bucket_name app_name s.bucket_app_map;
      } in
      add_triggers app_name coord_thread ts (
        if trigger.trigger_name == []
        then s'
        else (install_trigger trigger
            (gen_trigger_pointer pb now trigger.primitive_type trigger.trigger_name
              (or_default empty_primitive trigger.primitive))
            s'))

  -- `msg_type` 0
  unfoldable pub add_app : UpdateCoordMsg B → Scheduler D → Option (Scheduler D)
  unfolding add_functions add_dependencies add_triggers
  add_app msg s = do
    let coord_thread : HandlerThread = record { ip = msg.ip; tid = msg.thread_id }
    let s1 = record s {
      helper = record s.helper {
        app_coord_map = insert msg.app_name coord_thread s.helper.app_coord_map;
      };
    }
    s2 ←
        add_dependencies msg.app_name msg.dependencies (add_functions msg.app_name msg.functions s1)
    some (add_triggers msg.app_name coord_thread msg.triggers s2)

  -- `msg_type` 1
  unfoldable pub clear_triggers : List (TriggerEntity B) → Scheduler D → Scheduler D
  unfolding clear_named
  clear_triggers [] s = s
  clear_triggers (trigger ∷ ts) s = clear_triggers ts (record s {
    triggers =
        clear_named trigger.trigger_name trigger.session
          (or_default [] (lookup trigger.bucket_name s.bucket_triggers_map)) s.triggers;
  })

  -- `msg_type` 2
  unfoldable pub delete_triggers : List (TriggerEntity B) → Scheduler D → Option (Scheduler D)
  unfolding delete_named
  delete_triggers [] s = some s
  delete_triggers (trigger ∷ ts) s = do
    ids ←
        delete_named s.triggers trigger.trigger_name
          (or_default [] (lookup trigger.bucket_name s.bucket_triggers_map))
    delete_triggers ts
        (record s { bucket_triggers_map = insert trigger.bucket_name ids s.bucket_triggers_map })

  unfoldable pub handle_update : UpdateCoordMsg B → Scheduler D → Option (Scheduler D)
  unfolding add_app clear_triggers delete_triggers
  handle_update msg s =
      if msg.msg_type == 0
      then add_app msg s
      else if msg.msg_type == 1
      then some (clear_triggers msg.triggers s)
      else if msg.msg_type == 2
      then delete_triggers msg.triggers s
      else some s
