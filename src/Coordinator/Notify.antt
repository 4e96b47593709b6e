-- ===== src/Coordinator/Notify.antt =====
-- pheromone/src/coordinator/notify_handler.cpp: new objects are recorded and checked against the
-- triggers of their bucket, and the functions that are triggered are sent to workers.
pub mod Effects
use demeter.Prelude.{
  if◌then◌else◌, ◌>>=◌, contains, add, is_nil, get_elem?, pred_ℤ, is_some, or_default, lookup,
  insert, update, ◌==◌, Str, nat_eq, str_eq, ℕ, ◌+◌, ◌%◌, Bool, true, false, not, ◌&&◌, ◌||◌,
  Option, none, some, List, [], ◌∷◌, ◌++◌, map,
}
use demeter.Names.{
  BucketKey, BucketKeyAddress, find_byte, get_local_object_name, shm_key_name,
  get_bucket_key_from_addr, delimiter,
}
use demeter.Names.Split.{implode}
use demeter.Trigger.{TriggerAction}
use demeter.Trigger.Any.{
  TriggerPointer, PrimitiveType, action_for_new_object, get_trigger_name, get_trigger_option,
  get_type,
}
use demeter.Trigger.ByTime.{TimePoint}
use demeter.Coordinator.{
  Coordinator, Argument, FunctionRequest, FunctionCall, NodeStatus, UpdateCoordMsg, TriggerEntity,
  empty_update, empty_entity, Outgoing, function_call, update_coord, tcp_address,
  trigger_update_port, get_func_exec_address,
}
use demeter.Coordinator.Workers.{host_of, action_args, touch_nodes, pick_worker}
use demeter.Coordinator.Objects.{update_address}
use demeter.Coordinator.Demeter.{new_status}

pub record KeyNotifyRequest : Type 0 where
  pub response_address : Str
  pub addresses : List BucketKeyAddress
  pub active_trigger_names : List Str
  pub request_id : Str

abbrev pub is_by_time : PrimitiveType → Bool
is_by_time PrimitiveType.by_time = true
is_by_time _ = false

-- The object is recorded; `none` in the second part is the error that ends the loop.
unfoldable pub record_object : Coordinator → BucketKey → Str → Str → Option (Option Coordinator)
unfolding host_of
record_object c b ip payload =
    if payload == [] && not (is_some (lookup b.bucket c.bucket_app_map)) then some none else do
      host ← host_of ip
      some (
          some (record c {
            bucket_node_map = update b.bucket [] (add host) c.bucket_node_map;
            bucket_key_address_map = update_address b ip c.bucket_key_address_map;
            bucket_key_val_map =
                if payload == []
                then c.bucket_key_val_map
                else insert (shm_key_name b) payload c.bucket_key_val_map;
          }))

abbrev pub is_skipped : KeyNotifyRequest → TriggerPointer → List TriggerAction → Bool
is_skipped request t actions =
    contains request.active_trigger_names (get_trigger_name t) || is_nil actions

-- What the handler threads through its loops: the state and the seed; and what it sends.
abbrev pub Effect : Type 0 → Type 0 → Type 0
Effect B D = (Coordinator × ℕ) × List (Outgoing B D)

module _ {B D : Type 0} (zero_cores : D) (rand_r : ℕ → ℕ × ℕ) (io_thread_num : ℕ) where
  -- The body of the loop over the actions of a trigger.
  unfoldable pub perform_action :
      KeyNotifyRequest → BucketKey → ℕ → Coordinator × ℕ → TriggerAction → Option (Effect B D)
  unfolding action_args touch_nodes pick_worker
  perform_action request b arg_flag (c, seed) action = do
    (args, hosts) ← action_args c b.bucket arg_flag action.session_keys
    let apps = update b.bucket [] (λ app. app) c.bucket_app_map
    let call : FunctionCall D = record {
      app_name = or_default [] (lookup b.bucket apps);
      requests =
          record { name = action.function; arguments = args; cpu_cores = zero_cores; memory_mb = 0 }
          ∷ [];
      source = [];
      request_id = [];
      resp_address = request.response_address;
      session_id = b.session;
      sync_data_status = true;
    }
    let nodes = touch_nodes hosts c.node_status_map
    let worker = pick_worker hosts nodes
    let c' = record c { bucket_app_map = apps; node_status_map = nodes }
    some (
        if worker == [] then ((c', seed), []) else (
          (
            record c' {
              node_status_map =
                  update worker new_status
                    (λ s. record s { avail_executors = pred_ℤ s.avail_executors }) nodes;
            },
            (rand_r seed).1,
          ),
          function_call (get_func_exec_address worker ((rand_r seed).0 % io_thread_num)) call ∷ [],
        ))

  unfoldable pub perform_actions :
      KeyNotifyRequest → BucketKey → ℕ → Coordinator × ℕ → List TriggerAction → Option (Effect B D)
  unfolding perform_action
  perform_actions request b arg_flag s [] = some (s, [])
  perform_actions request b arg_flag s (a ∷ actions) = do
    (s', sent) ← perform_action request b arg_flag s a
    (s'', later) ← perform_actions request b arg_flag s' actions
    some (s'', sent ++ later)

  -- An active trigger, or one with no actions, is passed over.
  unfoldable pub fire :
      KeyNotifyRequest
      → BucketKey
      → Coordinator × ℕ
      → TriggerPointer × List TriggerAction
      → Option (Effect B D)
  unfolding perform_actions
  fire request b s (t, actions) =
      if is_skipped request t actions
      then some (s, [])
      else perform_actions request b (get_trigger_option t + 1) s actions

  -- The loop over the triggers of the bucket: the triggers after it, and `triggered_name`.
  unfoldable pub check_triggers :
      TimePoint
      → KeyNotifyRequest
      → BucketKey
      → Coordinator × ℕ
      → List TriggerPointer
      → Option (List TriggerPointer × List Str × Effect B D)
  unfolding fire
  check_triggers now request b s [] = some ([], [], (s, []))
  check_triggers now request b s (t ∷ ts) = do
    let (t', actions) = action_for_new_object now t b
    (s', sent) ← fire request b s (t', actions)
    (ts', names, (s'', later)) ← check_triggers now request b s' ts
    some (
      t' ∷ ts',
      if is_skipped request t' actions || is_by_time (get_type t)
          then names
          else get_trigger_name t ∷ names,
      (s'', sent ++ later),
    )

  abbrev pub fired_entities : BucketKey → List Str → List (TriggerEntity B)
  fired_entities b = map (λ name. record empty_entity {
    bucket_name = b.bucket;
    trigger_name = name;
    session = b.session;
  })

  -- "sync with nodes"
  unfoldable pub sync_nodes : Coordinator → BucketKey → List Str → List (Outgoing B D)
  sync_nodes c b [] = []
  sync_nodes c b (name ∷ names) =
      map
        (λ ip.
          update_coord (tcp_address ip trigger_update_port)
            (record empty_update { msg_type = 1; triggers = fired_entities b (name ∷ names) }))
        (or_default [] (lookup b.bucket c.bucket_node_map))

  -- The rest of a round, once the object is recorded; without a record the loop ends.
  unfoldable pub notify_recorded :
      TimePoint
      → KeyNotifyRequest
      → BucketKey
      → ℕ
      → Option Coordinator
      → Option (Option (Effect B D))
  unfolding check_triggers sync_nodes
  notify_recorded now request b seed none = some none
  notify_recorded now request b seed (some c) = do
    (triggers, names, ((c', seed'), sent)) ←
        check_triggers now request b (c, seed)
          (or_default [] (lookup b.bucket c.bucket_triggers_map))
    let last = record c' { bucket_triggers_map = insert b.bucket triggers c'.bucket_triggers_map }
    some (some ((last, seed'), sent ++ sync_nodes last b names))

  -- One round of the loop over the addresses; `none` in the second part ends the loop.
  unfoldable pub notify_object :
      TimePoint
      → KeyNotifyRequest
      → Coordinator × ℕ
      → BucketKeyAddress
      → Option (Option (Effect B D))
  unfolding record_object notify_recorded
  notify_object now request (c, seed) address = do
    let b = get_bucket_key_from_addr address
    ip ← get_elem? address.ips 0
    recorded ← record_object c b ip address.payload
    notify_recorded now request b seed recorded

  unfoldable pub notify_objects :
      TimePoint → KeyNotifyRequest → Coordinator × ℕ → List BucketKeyAddress → Option (Effect B D)
  unfolding notify_object
  notify_objects now request s [] = some (s, [])
  notify_objects now request s (address ∷ rest) = do
    one ← notify_object now request s address
    elim one [
      | none ↦ some (s, [])
      | some (s', sent) ↦ do
        (s'', later) ← notify_objects now request s' rest
        some (s'', sent ++ later)
    ]

  unfoldable pub notify_handler :
      TimePoint → ℕ → Coordinator → KeyNotifyRequest → Option (Effect B D)
  unfolding notify_objects
  notify_handler now seed c request = notify_objects now request (c, seed) request.addresses
