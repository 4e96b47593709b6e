-- ===== src/Trigger/Immediate.antt =====
-- trigger.hpp, `ImmediateTrigger`: every object triggers the function.
use demeter.Prelude.{insert, erase, Str, nat_eq, str_eq, ℕ, List, [], ◌∷◌}
use demeter.Names.{BucketKey}
use demeter.Trigger.{
  TriggerAction, TriggerFunctionMetadata, Trigger, StatusCache, waiting, session_key,
}

pub record ImmediateTrigger : Type 0 where
  pub base : Trigger
  pub session_status_cache : StatusCache

unfoldable pub action_for_new_object :
    ImmediateTrigger → BucketKey → ImmediateTrigger × List TriggerAction
action_for_new_object t b = (
  record t { session_status_cache = erase b.session t.session_status_cache },
  record { function = t.base.target_function; session_keys = session_key b ∷ [] } ∷ [],
)

unfoldable pub notify_source_func : ImmediateTrigger → Str → Str → List Str → ℕ → ImmediateTrigger
notify_source_func t func_name session_id func_args arg_flag = record t {
  session_status_cache =
      insert session_id
        (record { func_name = func_name; func_args = func_args; arg_flag = arg_flag })
        t.session_status_cache;
}

unfoldable pub action_for_rerun : ImmediateTrigger → Str → List TriggerFunctionMetadata
action_for_rerun t session_id = waiting session_id t.session_status_cache

unfoldable pub clear : ImmediateTrigger → Str → ImmediateTrigger
clear t session = t
