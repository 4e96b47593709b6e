-- ===== src/Trigger/ByBatchSize.antt =====
-- trigger.hpp, `ByBatchSizeTrigger`: the function is triggered by each batch of `count` objects.
pub mod Batches
use demeter.Prelude.{
  leb, if◌then◌else◌, length, ℤ, insert, erase, Str, nat_eq, str_eq, pos, negsuc, ℕ, ◌-◌, List, [],
  ◌∷◌, ◌++◌,
}
use demeter.Names.{BucketKey}
use demeter.Trigger.{
  TriggerAction, TriggerFunctionMetadata, Trigger, StatusCache, waiting, session_key,
}

pub record ByBatchSizeTrigger : Type 0 where
  pub base : Trigger
  pub count : ℤ
  pub buffer : List (Str × Str)
  pub session_status_cache : StatusCache

-- The `size_t` that an `int` is converted to in a comparison with `size()`.
abbrev pub size_of_int : ℤ → ℕ
size_of_int (pos n) = n
size_of_int (negsuc n) = 0x10000000000000000 - n - 1

unfoldable pub action_for_new_object :
    ByBatchSizeTrigger → BucketKey → ByBatchSizeTrigger × List TriggerAction
action_for_new_object t b =
    let buffer = t.buffer ++ session_key b ∷ [] in
    let cache = erase b.session t.session_status_cache in
    if leb (size_of_int t.count) (length buffer)
    then (
      record t { buffer = []; session_status_cache = cache },
      record { function = t.base.target_function; session_keys = buffer } ∷ [],
    )
    else (record t { buffer = buffer; session_status_cache = cache }, [])

unfoldable pub notify_source_func :
    ByBatchSizeTrigger → Str → Str → List Str → ℕ → ByBatchSizeTrigger
notify_source_func t func_name session_id func_args arg_flag = record t {
  session_status_cache =
      insert session_id
        (record { func_name = func_name; func_args = func_args; arg_flag = arg_flag })
        t.session_status_cache;
}

unfoldable pub action_for_rerun : ByBatchSizeTrigger → Str → List TriggerFunctionMetadata
action_for_rerun t session_id = waiting session_id t.session_status_cache

unfoldable pub clear : ByBatchSizeTrigger → Str → ByBatchSizeTrigger
clear t session = record t { buffer = []; session_status_cache = [] }
