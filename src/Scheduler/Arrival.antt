-- ===== src/Scheduler/Arrival.antt =====
-- pheromone/src/scheduler/object_handlers.cpp, `check_object_arrival`: a new object is shown to the
-- triggers of its bucket.
use demeter.Prelude.{
  if◌then◌else◌, ◌>>=◌, is_nil, get_elem?, Map, or_default, lookup, update, Str, nat_eq, str_eq, ℕ,
  ◌+◌, Option, none, some, List, [], ◌∷◌, ◌++◌, map,
}
use demeter.Names.{BucketKey, get_local_object_name}
use demeter.Trigger.{TriggerAction, TriggerFunctionMetadata}
use demeter.Trigger.Any.{action_for_new_object, get_trigger_name, get_trigger_option}
use demeter.Trigger.ByTime.{TimePoint}
use demeter.Coordinator.{to_string}
use demeter.Scheduler.{TriggerId, Scheduler}
use demeter.Scheduler.Updates.{modify_at}

-- The name of the object that a session and a key stand for.
abbrev pub object_name : Str → Str × Str → Str
object_name bucket sk = get_local_object_name bucket sk.1 sk.0

-- The content of the objects, where that of each is packed into `key_val_map`.
unfoldable pub packed_args : Map Str Str → Str → List (Str × Str) → Option (List Str)
packed_args vals bucket [] = some []
packed_args vals bucket (sk ∷ sks) = do
  val ← lookup (object_name bucket sk) vals
  rest ← packed_args vals bucket sks
  some (val ∷ rest)

-- The names of the objects with their sizes, and the entries that reading a size creates.
unfoldable pub sized_args : Map Str ℕ → List Str → List Str × Map Str ℕ
sized_args lens [] = ([], lens)
sized_args lens (key ∷ keys) =
    let (rest, lens') = sized_args (update key 0 (λ n. n) lens) keys in
    (key ∷ to_string (or_default 0 (lookup key lens)) ∷ rest, lens')

-- The arguments and the flag of an action, where `arg_flag` is that of the action before.
unfoldable pub action_metadata :
    Map Str Str → Map Str ℕ → Str → ℕ → TriggerAction → TriggerFunctionMetadata × Map Str ℕ
unfolding packed_args sized_args
action_metadata vals lens bucket arg_flag action =
    elim (packed_args vals bucket action.session_keys) [
      | some args ↦ (record { func_name = action.function; func_args = args; arg_flag = 0 }, lens)
      | none ↦
          let (args, lens') = sized_args lens (map (object_name bucket) action.session_keys) in
          (record { func_name = action.function; func_args = args; arg_flag = arg_flag }, lens')
    ]

-- `arg_flag` is declared outside the loop over the actions, and keeps the 0 of a packed one.
unfoldable pub actions_metadata :
    Map Str Str
    → Map Str ℕ
    → Str
    → ℕ
    → List TriggerAction
    → List TriggerFunctionMetadata × Map Str ℕ
unfolding action_metadata
actions_metadata vals lens bucket arg_flag [] = ([], lens)
actions_metadata vals lens bucket arg_flag (action ∷ actions) =
    let (meta, lens') = action_metadata vals lens bucket arg_flag action in
    let (metas, lens'') = actions_metadata vals lens' bucket meta.arg_flag actions in
    (meta ∷ metas, lens'')

module _ {D : Type 0} where
  -- The triggers that fired, and the functions that they call. Every index stands for a trigger.
  unfoldable pub check_triggers_of :
      TimePoint
      → BucketKey
      → List TriggerId
      → Scheduler D
      → Option (List Str × List TriggerFunctionMetadata × Scheduler D)
  unfolding modify_at actions_metadata
  check_triggers_of now b [] s = some ([], [], s)
  check_triggers_of now b (i ∷ ids) s = do
    t ← get_elem? s.triggers i
    let (t', actions) = action_for_new_object now t b
    let (metas, lens) =
        actions_metadata s.key_val_map s.key_len_map b.bucket (get_trigger_option t' + 1) actions
    let s' = record s { triggers = modify_at (λ old. t') i s.triggers; key_len_map = lens }
    (names, later, s'') ← check_triggers_of now b ids s'
    some (if is_nil actions then names else get_trigger_name t' ∷ names, metas ++ later, s'')

  unfoldable pub check_object_arrival :
      TimePoint
      → BucketKey
      → Scheduler D
      → Option (List Str × List TriggerFunctionMetadata × Scheduler D)
  unfolding check_triggers_of
  check_object_arrival now b s =
      check_triggers_of now b (or_default [] (lookup b.bucket s.bucket_triggers_map)) s
