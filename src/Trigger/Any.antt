-- ===== src/Trigger/Any.antt =====
-- trigger.hpp: `TriggerPointer` with the virtual functions, `dump_pritimive` of each class, and
-- the factory `gen_trigger_pointer`. The protobuf library is a parameter.
mod Messages
pub mod Factory
pub use Messages.*
use demeter.Prelude.{
  of_list, ℤ, int_of_u32, Str, nat_eq, str_eq, pos, negsuc, ℕ, ◌-◌, Option, none, some, List, [],
}
use demeter.Names.{BucketKey}
use demeter.Trigger.{TriggerAction, TriggerFunctionMetadata, RerunMetadata, Trigger, init}
use demeter.Trigger.Immediate
use demeter.Trigger.Immediate.{ImmediateTrigger}
use demeter.Trigger.ByName
use demeter.Trigger.ByName.{ByNameTrigger}
use demeter.Trigger.ByBatchSize
use demeter.Trigger.ByBatchSize.{ByBatchSizeTrigger}
use demeter.Trigger.BySet
use demeter.Trigger.BySet.{BySetTrigger}
use demeter.Trigger.DynamicGroup
use demeter.Trigger.DynamicGroup.{DynamicGroupTrigger}
use demeter.Trigger.Redundant
use demeter.Trigger.Redundant.{RedundantTrigger}
use demeter.Trigger.ByTime
use demeter.Trigger.ByTime.{ByTimeTrigger, TimePoint}

pub data TriggerPointer : Type 0 where
  immediate : ImmediateTrigger → TriggerPointer
  by_name : ByNameTrigger → TriggerPointer
  by_batch_size : ByBatchSizeTrigger → TriggerPointer
  by_set : BySetTrigger → TriggerPointer
  dynamic_group : DynamicGroupTrigger → TriggerPointer
  redundant : RedundantTrigger → TriggerPointer
  by_time : ByTimeTrigger → TriggerPointer

-- A protobuf enum is open: a message may hold a number that has no name.
pub data PrimitiveType : Type 0 where
  immediate by_name by_batch_size by_set dynamic_group redundant by_time : PrimitiveType
  unknown : ℕ → PrimitiveType

unfoldable pub base : TriggerPointer → Trigger
base (immediate t) = t.base
base (by_name t) = t.base
base (by_batch_size t) = t.base
base (by_set t) = t.base
base (dynamic_group t) = t.base
base (redundant t) = t.base
base (by_time t) = t.base

unfoldable pub with_base : TriggerPointer → Trigger → TriggerPointer
with_base (immediate t) b = immediate (record t { base = b })
with_base (by_name t) b = by_name (record t { base = b })
with_base (by_batch_size t) b = by_batch_size (record t { base = b })
with_base (by_set t) b = by_set (record t { base = b })
with_base (dynamic_group t) b = dynamic_group (record t { base = b })
with_base (redundant t) b = redundant (record t { base = b })
with_base (by_time t) b = by_time (record t { base = b })

unfoldable pub get_trigger_name : TriggerPointer → Str
unfolding base
get_trigger_name t = (base t).trigger_name

unfoldable pub get_trigger_option : TriggerPointer → ℕ
unfolding base
get_trigger_option t = (base t).trigger_option

unfoldable pub set_trigger_option : TriggerPointer → ℕ → TriggerPointer
unfolding base with_base
set_trigger_option t option = with_base t (record (base t) { trigger_option = option })

unfoldable pub get_type : TriggerPointer → PrimitiveType
get_type (immediate t) = PrimitiveType.immediate
get_type (by_name t) = PrimitiveType.by_name
get_type (by_batch_size t) = PrimitiveType.by_batch_size
get_type (by_set t) = PrimitiveType.by_set
get_type (dynamic_group t) = PrimitiveType.dynamic_group
get_type (redundant t) = PrimitiveType.redundant
get_type (by_time t) = PrimitiveType.by_time

-- A result of a class's function, as one of the pointer's.
abbrev on_state {ℓ} : {T : Type 0} {A : Type ℓ} → (T → TriggerPointer) → T × A → TriggerPointer × A
on_state c (t, a) = (c t, a)

unfoldable pub action_for_new_object :
    TimePoint → TriggerPointer → BucketKey → TriggerPointer × List TriggerAction
action_for_new_object now (immediate t) b = on_state immediate (Immediate.action_for_new_object t b)
action_for_new_object now (by_name t) b = on_state by_name (ByName.action_for_new_object t b)
action_for_new_object now (by_batch_size t) b =
    on_state by_batch_size (ByBatchSize.action_for_new_object t b)
action_for_new_object now (by_set t) b = on_state by_set (BySet.action_for_new_object t b)
action_for_new_object now (dynamic_group t) b =
    on_state dynamic_group (DynamicGroup.action_for_new_object t b)
action_for_new_object now (redundant t) b = on_state redundant (Redundant.action_for_new_object t b)
action_for_new_object now (by_time t) b = on_state by_time (ByTime.action_for_new_object now t b)

unfoldable pub clear : TriggerPointer → Str → TriggerPointer
clear (immediate t) s = immediate (Immediate.clear t s)
clear (by_name t) s = by_name (ByName.clear t s)
clear (by_batch_size t) s = by_batch_size (ByBatchSize.clear t s)
clear (by_set t) s = by_set (BySet.clear t s)
clear (dynamic_group t) s = dynamic_group (DynamicGroup.clear t s)
clear (redundant t) s = redundant (Redundant.clear t s)
clear (by_time t) s = by_time (ByTime.clear t s)

-- The base class's version does nothing.
unfoldable pub notify_source_func : TriggerPointer → Str → Str → List Str → ℕ → TriggerPointer
notify_source_func (immediate t) f s args flag =
    immediate (Immediate.notify_source_func t f s args flag)
notify_source_func (by_name t) f s args flag = by_name (ByName.notify_source_func t f s args flag)
notify_source_func (by_batch_size t) f s args flag =
    by_batch_size (ByBatchSize.notify_source_func t f s args flag)
notify_source_func (by_set t) f s args flag = by_set (BySet.notify_source_func t f s args flag)
notify_source_func t f s args flag = t

unfoldable pub action_for_rerun : TriggerPointer → Str → List TriggerFunctionMetadata
action_for_rerun (immediate t) s = Immediate.action_for_rerun t s
action_for_rerun (by_name t) s = ByName.action_for_rerun t s
action_for_rerun (by_batch_size t) s = ByBatchSize.action_for_rerun t s
action_for_rerun (by_set t) s = BySet.action_for_rerun t s
action_for_rerun t s = []

unfoldable pub set_rerun_metadata : TriggerPointer → List RerunMetadata → TriggerPointer
set_rerun_metadata (by_set t) metas = by_set (BySet.set_rerun_metadata t metas)
set_rerun_metadata t metas = t

-- The `uint32_t` that an `int` is converted to.
abbrev pub u32_of_int : ℤ → ℕ
u32_of_int (pos n) = n
u32_of_int (negsuc n) = 0x100000000 - n - 1

module _ {B : Type 0} (pb : Protobuf B) where
  unfoldable pub dump_pritimive : TriggerPointer → B
  dump_pritimive (immediate t) =
      pb.immediate.serialize (record { function = t.base.target_function })
  dump_pritimive (by_name t) =
      pb.by_name.serialize (record { function = t.base.target_function; key_name = t.key_name })
  dump_pritimive (by_batch_size t) =
      pb.by_batch_size.serialize
        (record { function = t.base.target_function; count = u32_of_int t.count })
  dump_pritimive (by_set t) =
      pb.by_set.serialize (record { function = t.base.target_function; key_set = t.key_set })
  dump_pritimive (dynamic_group t) =
      pb.dynamic_group.serialize
        (record { function = t.base.target_function; control_group = t.control_group })
  dump_pritimive (redundant t) =
      pb.redundant.serialize (record { function = t.base.target_function; k = t.k; n = t.n })
  dump_pritimive (by_time t) =
      pb.by_time.serialize
        (record { function = t.base.target_function; time_window = t.time_window })

abbrev pub new_immediate : Str → Str → TriggerPointer
new_immediate function name =
    immediate (record { base = init function name; session_status_cache = [] })

abbrev pub new_by_name : Str → Str → Str → TriggerPointer
new_by_name function name key_name =
    by_name (record { base = init function name; key_name = key_name; session_status_cache = [] })

abbrev pub new_by_batch_size : Str → Str → ℤ → TriggerPointer
new_by_batch_size function name count =
    by_batch_size
      (record { base = init function name; count = count; buffer = []; session_status_cache = [] })

abbrev pub new_by_set : Str → Str → List Str → TriggerPointer
new_by_set function name key_set = by_set (record {
  base = init function name;
  key_set = key_set;
  session_prepared_keys_map = [];
  func_key_map = [];
  session_status_cache = [];
})

abbrev pub new_dynamic_group : Str → Str → List Str → TriggerPointer
new_dynamic_group function name control_group = dynamic_group (record {
  base = init function name;
  data_group_keys_map = [];
  control_group = control_group;
  cur_control_keys = [];
})

abbrev pub new_redundant : Str → Str → ℕ → ℕ → TriggerPointer
new_redundant function name k n =
    redundant (record { base = init function name; k = k; n = n; count = 0; buffer = [] })

abbrev pub new_by_time : TimePoint → Str → Str → ℕ → TriggerPointer
new_by_time now function name time_window = by_time (record {
  base = init function name;
  time_window = time_window;
  buffer = [];
  last_trigger_stamp = now;
})

module _ {B : Type 0} (pb : Protobuf B) where
  unfoldable pub gen_trigger_pointer : TimePoint → PrimitiveType → Str → B → Option TriggerPointer
  gen_trigger_pointer now PrimitiveType.immediate name serialized =
      let m = pb.immediate.parse serialized in some (new_immediate m.function name)
  gen_trigger_pointer now PrimitiveType.by_name name serialized =
      let m = pb.by_name.parse serialized in some (new_by_name m.function name m.key_name)
  gen_trigger_pointer now PrimitiveType.by_batch_size name serialized =
      let m = pb.by_batch_size.parse serialized in
      some (new_by_batch_size m.function name (int_of_u32 m.count))
  gen_trigger_pointer now PrimitiveType.by_set name serialized =
      let m = pb.by_set.parse serialized in some (new_by_set m.function name (of_list m.key_set))
  gen_trigger_pointer now PrimitiveType.dynamic_group name serialized =
      let m = pb.dynamic_group.parse serialized in
      some (new_dynamic_group m.function name (of_list m.control_group))
  gen_trigger_pointer now PrimitiveType.redundant name serialized =
      let m = pb.redundant.parse serialized in some (new_redundant m.function name m.k m.n)
  gen_trigger_pointer now PrimitiveType.by_time name serialized =
      let m = pb.by_time.parse serialized in some (new_by_time now m.function name m.time_window)
  gen_trigger_pointer now (unknown code) name serialized = none
