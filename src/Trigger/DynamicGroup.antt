-- ===== src/Trigger/DynamicGroup.antt =====
-- trigger.hpp, `DynamicGroupTrigger`: objects are collected by the group that their key begins
-- with; when every control object has arrived, each group triggers the function once.
pub mod Groups
use demeter.Prelude.{
  nat_eqb, if◌then◌else◌, contains, add, length, take, Map, update, ◌==◌, Str, bytes, nat_eq,
  str_eq, ℕ, none, some, List, [], ◌∷◌, map,
}
use demeter.Names.{BucketKey, find_byte}
use demeter.Trigger.{TriggerAction, Trigger}

abbrev pub group_delimiter : ℕ
group_delimiter = b':'

abbrev pub control_group_prefix : Str
control_group_prefix = bytes "ctrl"

pub record DynamicGroupTrigger : Type 0 where
  pub base : Trigger
  pub data_group_keys_map : Map Str (List Str)
  pub control_group : List Str
  pub cur_control_keys : List Str

-- `key.substr(0, key.find(group_delimiter))`
unfoldable pub group_of : Str → Str
group_of key = elim (find_byte group_delimiter key) [ none ↦ key | some i ↦ take i key ]

-- The loop over the groups: one action for each.
unfoldable pub group_actions : Str → Str → Map Str (List Str) → List TriggerAction
group_actions function session [] = []
group_actions function session ((group, keys) ∷ groups) =
    record { function = function; session_keys = map (λ key. (session, key)) keys }
    ∷ group_actions function session groups

-- The branch for a control object, once `cur_control_keys` is updated.
unfoldable pub check_control :
    DynamicGroupTrigger → Str → List Str → DynamicGroupTrigger × List TriggerAction
unfolding group_actions
check_control t session control =
    if nat_eqb (length control) (length t.control_group)
    then (
      record t { data_group_keys_map = []; cur_control_keys = [] },
      group_actions t.base.target_function session t.data_group_keys_map,
    )
    else (record t { cur_control_keys = control }, [])

unfoldable pub action_for_new_object :
    DynamicGroupTrigger → BucketKey → DynamicGroupTrigger × List TriggerAction
unfolding check_control
action_for_new_object t b =
    if group_of b.key == control_group_prefix
    then check_control t b.session (
        if contains t.control_group b.key then add b.key t.cur_control_keys else t.cur_control_keys)
    else (
      record t {
        data_group_keys_map = update (group_of b.key) [] (add b.key) t.data_group_keys_map;
      },
      [],
    )

unfoldable pub clear : DynamicGroupTrigger → Str → DynamicGroupTrigger
clear t session = record t { data_group_keys_map = []; cur_control_keys = [] }
