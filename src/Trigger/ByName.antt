-- ===== src/Trigger/ByName.antt =====
-- trigger.hpp, `ByNameTrigger`: the object of one key triggers the function.
use demeter.Prelude.{if◌then◌else◌, insert, erase, ◌==◌, Str, nat_eq, str_eq, ℕ, List, [], ◌∷◌}
use demeter.Names.{BucketKey}
use demeter.Trigger.{
  TriggerAction, TriggerFunctionMetadata, Trigger, StatusCache, waiting, session_key,
}

pub record ByNameTrigger : Type 0 where
  pub base : Trigger
  pub key_name : Str
  pub session_status_cache : StatusCache

unfoldable pub action_for_new_object :
    ByNameTrigger → BucketKey → ByNameTrigger × List TriggerAction
action_for_new_object t b = (
  record t { session_status_cache = erase b.session t.session_status_cache },
  if b.key == t.key_name
      then record { function = t.base.target_function; session_keys = session_key b ∷ [] } ∷ []
      else [],
)

unfoldable pub notify_source_func : ByNameTrigger → Str → Str → List Str → ℕ → ByNameTrigger
notify_source_func t func_name session_id func_args arg_flag = record t {
  session_status_cache =
      insert session_id
        (record { func_name = func_name; func_args = func_args; arg_flag = arg_flag })
        t.session_status_cache;
}

unfoldable pub action_for_rerun : ByNameTrigger → Str → List TriggerFunctionMetadata
action_for_rerun t session_id = waiting session_id t.session_status_cache

unfoldable pub clear : ByNameTrigger → Str → ByNameTrigger
clear t session = t
