-- ===== src/Trigger/ByTime.antt =====
-- trigger.hpp, `ByTimeTrigger`: the objects of a time window trigger the function together. The
-- clock is an argument, in nanoseconds.
pub mod Buffer
use demeter.Prelude.{
  ltb, leb, nat_eqb, if◌then◌else◌, Str, nat_eq, str_eq, ℕ, ◌-◌, ◌/◌, Bool, ◌&&◌, List, [], ◌∷◌,
  ◌++◌,
}
use demeter.Names.{BucketKey}
use demeter.Trigger.{TriggerAction, Trigger, session_key}

abbrev pub TimePoint : Type 0
TimePoint = ℕ

pub record ByTimeTrigger : Type 0 where
  pub base : Trigger
  pub time_window : ℕ
  pub buffer : List (Str × Str)
  pub last_trigger_stamp : TimePoint

-- `duration_cast<milliseconds>(now - last).count() >= window`, rounded towards zero; the clock may
-- have been set back.
unfoldable pub has_elapsed : TimePoint → TimePoint → ℕ → Bool
has_elapsed now last window =
    if leb last now
    then leb window ((now - last) / 1_000_000)
    else nat_eqb window 0 && ltb (last - now) 1_000_000

unfoldable pub action_for_new_object :
    TimePoint → ByTimeTrigger → BucketKey → ByTimeTrigger × List TriggerAction
action_for_new_object now t b =
    let buffer = t.buffer ++ session_key b ∷ [] in
    if has_elapsed now t.last_trigger_stamp t.time_window
    then (
      record t { buffer = []; last_trigger_stamp = now },
      record { function = t.base.target_function; session_keys = buffer } ∷ [],
    )
    else (record t { buffer = buffer }, [])

unfoldable pub clear : ByTimeTrigger → Str → ByTimeTrigger
clear t session = record t { buffer = [] }
