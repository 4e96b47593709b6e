-- ===== src/Trigger/BySet.antt =====
-- trigger.hpp, `BySetTrigger`: the function is triggered when, in one session, an object of each
-- key of a set has arrived.
pub mod Fires
pub mod Rerun
use demeter.Prelude.{
  nat_eqb, if◌then◌else◌, contains, add, length, Map, or_default, lookup, insert, erase, update,
  Str, nat_eq, str_eq, ℕ, List, [], ◌∷◌, ◌++◌, map,
}
use demeter.Names.{BucketKey}
use demeter.Trigger.{
  TriggerAction, TriggerFunctionMetadata, RerunMetadata, Trigger, StatusCache, waiting,
}

pub record BySetTrigger : Type 0 where
  pub base : Trigger
  pub key_set : List Str
  pub session_prepared_keys_map : Map Str (List Str)
  pub func_key_map : Map Str Str
  pub session_status_cache : StatusCache

-- `session_prepared_keys_map_[session]`, read.
abbrev pub prepared_keys : BySetTrigger → Str → List Str
prepared_keys t session = or_default [] (lookup session t.session_prepared_keys_map)

-- The branch for a key of the set, once `prepared` and `cache` are updated.
unfoldable pub check_prepared :
    BySetTrigger → Str → Map Str (List Str) → StatusCache → BySetTrigger × List TriggerAction
check_prepared t session prepared cache =
    if nat_eqb (length (or_default [] (lookup session prepared))) (length t.key_set)
    then (
      record t { session_prepared_keys_map = erase session prepared; session_status_cache = cache },
      record {
        function = t.base.target_function;
        session_keys = map (λ key. (session, key)) t.key_set;
      }
          ∷ [],
    )
    else (record t { session_prepared_keys_map = prepared; session_status_cache = cache }, [])

unfoldable pub action_for_new_object : BySetTrigger → BucketKey → BySetTrigger × List TriggerAction
unfolding check_prepared
action_for_new_object t b =
    if contains t.key_set b.key
    then check_prepared t b.session (update b.session [] (add b.key) t.session_prepared_keys_map)
        (erase (b.key ++ b.session) t.session_status_cache)
    else (t, [])

-- `func_key_map_[func_name]` makes an empty entry for a function that has none.
unfoldable pub notify_source_func : BySetTrigger → Str → Str → List Str → ℕ → BySetTrigger
notify_source_func t func_name session_id func_args arg_flag = elim t.func_key_map [
  | [] ↦ t
  | _ ↦
      let keys = update func_name [] (λ key. key) t.func_key_map in
      record t {
        func_key_map = keys;
        session_status_cache =
            insert (or_default [] (lookup func_name keys) ++ session_id)
              (record { func_name = func_name; func_args = func_args; arg_flag = arg_flag })
              t.session_status_cache;
      }
]

-- The loop of `action_for_rerun` over the keys.
unfoldable pub rerun_keys : StatusCache → Str → List Str → List TriggerFunctionMetadata
rerun_keys cache session_id [] = []
rerun_keys cache session_id (key ∷ keys) =
    waiting (key ++ session_id) cache ++ rerun_keys cache session_id keys

unfoldable pub action_for_rerun : BySetTrigger → Str → List TriggerFunctionMetadata
unfolding rerun_keys
action_for_rerun t session_id = elim t.func_key_map [
  | [] ↦ []
  | _ ↦ rerun_keys t.session_status_cache session_id t.key_set
]

abbrev add_rerun_keys : List RerunMetadata → Map Str Str → Map Str Str
add_rerun_keys [] keys = keys
add_rerun_keys (meta ∷ metas) keys =
    add_rerun_keys metas (insert meta.source_func meta.source_key keys)

unfoldable pub set_rerun_metadata : BySetTrigger → List RerunMetadata → BySetTrigger
set_rerun_metadata t rerun_metadata = record t {
  func_key_map = add_rerun_keys rerun_metadata t.func_key_map;
}

unfoldable pub clear : BySetTrigger → Str → BySetTrigger
clear t session = record t {
  session_prepared_keys_map = erase session t.session_prepared_keys_map;
  session_status_cache = erase session t.session_status_cache;
}
