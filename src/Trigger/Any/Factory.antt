-- ===== src/Trigger/Any/Factory.antt =====
-- trigger.hpp: a trigger that the coordinator dumps is rebuilt by a local scheduler.
use demeter.Prelude.{
  IsSetList, of_list_self, ℤ, pos_part, neg_part, int_of_u32, nat_eq, str_eq, pos, negsuc, ◌≤◌, ◌<◌,
  ◌≡◌, some, arith,
}
use demeter.Trigger.ByTime.{TimePoint}
use demeter.Trigger.Any.{
  u32_of_int, TriggerPointer, immediate, by_name, by_batch_size, by_set, dynamic_group, redundant,
  by_time, Protobuf, get_trigger_name, get_type, dump_pritimive, gen_trigger_pointer, new_immediate,
  new_by_name, new_by_batch_size, new_by_set, new_dynamic_group, new_redundant, new_by_time,
}

-- The trigger as the constructor of its class makes it, with the same parameters.
abbrev pub renewed : TimePoint → TriggerPointer → TriggerPointer
renewed now (immediate t) = new_immediate t.base.target_function t.base.trigger_name
renewed now (by_name t) = new_by_name t.base.target_function t.base.trigger_name t.key_name
renewed now (by_batch_size t) = new_by_batch_size t.base.target_function t.base.trigger_name t.count
renewed now (by_set t) = new_by_set t.base.target_function t.base.trigger_name t.key_set
renewed now (dynamic_group t) =
    new_dynamic_group t.base.target_function t.base.trigger_name t.control_group
renewed now (redundant t) = new_redundant t.base.target_function t.base.trigger_name t.k t.n
renewed now (by_time t) = new_by_time now t.base.target_function t.base.trigger_name t.time_window

-- The range of an `int`, and no element twice in a set.
abbrev IsRepresented : TriggerPointer → Type 0
IsRepresented (by_batch_size t) = (pos_part t.count < 0x80000000) × (neg_part t.count ≤ 0x80000000)
IsRepresented (by_set t) = IsSetList t.key_set
IsRepresented (dynamic_group t) = IsSetList t.control_group
IsRepresented t = Unit

int_of_u32-of_int :
    (c : ℤ) → pos_part c < 0x80000000 → neg_part c ≤ 0x80000000 → int_of_u32 (u32_of_int c) ≡ c
int_of_u32-of_int (pos n) h k = ground arith
int_of_u32-of_int (negsuc n) h k = ground arith

-- For every trigger whose fields are in range: the type and the dump of the trigger, given to the
-- factory with the trigger's name, make a trigger of the same class with the same function and
-- parameters, in its initial state.
pub gen_trigger_pointer-dump_pritimive :
    {B : Type 0} (pb : Protobuf B) (now : TimePoint) (t : TriggerPointer)
    → IsRepresented t
    → gen_trigger_pointer pb now (get_type t) (get_trigger_name t) (dump_pritimive pb t)
      ≡ some (renewed now t)
unfolding gen_trigger_pointer get_type get_trigger_name dump_pritimive
gen_trigger_pointer-dump_pritimive pb now (immediate t) h = rw pb.immediate.parse-serialize
gen_trigger_pointer-dump_pritimive pb now (by_name t) h = rw pb.by_name.parse-serialize
gen_trigger_pointer-dump_pritimive pb now (by_batch_size t) h =
    rw (pb.by_batch_size.parse-serialize, int_of_u32-of_int t.count h.0 h.1)
gen_trigger_pointer-dump_pritimive pb now (by_set t) h =
    rw (pb.by_set.parse-serialize, of_list_self t.key_set h)
gen_trigger_pointer-dump_pritimive pb now (dynamic_group t) h =
    rw (pb.dynamic_group.parse-serialize, of_list_self t.control_group h)
gen_trigger_pointer-dump_pritimive pb now (redundant t) h = rw pb.redundant.parse-serialize
gen_trigger_pointer-dump_pritimive pb now (by_time t) h = rw pb.by_time.parse-serialize
