-- ===== src/Trigger/Redundant.antt =====
-- trigger.hpp, `RedundantTrigger`: of each `n` objects the first `k` trigger the function. The
-- fields are `unsigned`, so sums wrap around.
pub mod Windows
use demeter.Prelude.{
  leb, nat_eqb, if◌then◌else◌, Str, nat_eq, str_eq, ℕ, ◌+◌, ◌%◌, List, [], ◌∷◌, ◌++◌,
}
use demeter.Names.{BucketKey}
use demeter.Trigger.{TriggerAction, Trigger, session_key}

abbrev pub u32 : ℕ
u32 = 0x100000000

pub record RedundantTrigger : Type 0 where
  pub base : Trigger
  pub k : ℕ
  pub n : ℕ
  pub count : ℕ
  pub buffer : List (Str × Str)

unfoldable pub action_for_new_object :
    RedundantTrigger → BucketKey → RedundantTrigger × List TriggerAction
action_for_new_object t b =
    let count = (t.count + 1) % u32 in
    if leb count t.k
    then (let buffer = t.buffer ++ session_key b ∷ [] in
        if nat_eqb count t.k
        then (
          record t { count = count; buffer = [] },
          record { function = t.base.target_function; session_keys = buffer } ∷ [],
        )
        else (record t { count = count; buffer = buffer }, []))
    else if leb t.n count
    then (record t { count = 0 }, [])
    else (record t { count = count }, [])

unfoldable pub clear : RedundantTrigger → Str → RedundantTrigger
clear t session = record t { count = (t.count + t.k) % u32; buffer = [] }
