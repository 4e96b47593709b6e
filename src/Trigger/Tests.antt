-- ===== src/Trigger/Tests.antt =====
-- Concrete triggers and objects, for the theorems on trigger.hpp.
use demeter.Prelude.{
  if◌then◌else◌, contains, add, length, All, lookup, ◌==◌, Str, bytes, str_eqb, nat_eq, str_eq, pos,
  ℕ, suc, ◌+◌, ◌*◌, ◌≤◌, ◌<◌, ◌≡◌, refl, ap, some, List, [], ◌∷◌, ◌++◌, map, arith,
}
use demeter.Names.{find_byte, BucketKey}
use demeter.Trigger.{init, session_key}
use demeter.Trigger.Feed.{feed, sent}
use demeter.Trigger.ByBatchSize
use demeter.Trigger.ByBatchSize.{ByBatchSizeTrigger}
use demeter.Trigger.ByBatchSize.Batches.{feed-batches, IsBatch, IsFilling}
use demeter.Trigger.ByTime
use demeter.Trigger.ByTime.{ByTimeTrigger}
use demeter.Trigger.ByTime.Buffer
use demeter.Trigger.ByTime.Buffer.{feed-conserves, action_for_new_object-window}
use demeter.Trigger.BySet
use demeter.Trigger.BySet.{BySetTrigger}
use demeter.Trigger.BySet.Fires
use demeter.Trigger.BySet.Fires.{
  action_for_new_object-fires, action_for_new_object-IsReady, full_action,
}
use demeter.Trigger.DynamicGroup
use demeter.Trigger.DynamicGroup.{DynamicGroupTrigger, group_of}
use demeter.Trigger.DynamicGroup.Groups
use demeter.Trigger.DynamicGroup.Groups.{action_for_new_object-data, action_for_new_object-control}
use demeter.Trigger.Any.{
  TriggerPointer, Protobuf, ImmediatePrimitive, ByNamePrimitive, ByBatchSizePrimitive,
  BySetPrimitive, DynamicGroupPrimitive, RedundantPrimitive, ByTimePrimitive, gen_trigger_pointer,
  get_type, get_trigger_name, dump_pritimive,
}
use demeter.Trigger.Any.Factory
use demeter.Trigger.Any.Factory.{gen_trigger_pointer-dump_pritimive}
use demeter.Trigger.Redundant
use demeter.Trigger.Redundant.{RedundantTrigger}
use demeter.Trigger.Redundant.Windows.{feed-window}

abbrev f : Str
f = bytes "f"

abbrev left : Str
left = bytes "left"

abbrev right : Str
right = bytes "right"

abbrev s : Str
s = bytes "0123456789abcdef"

abbrev object_of : Str → BucketKey
object_of key = record { bucket = bytes "b"; key = key; session = s }

abbrev batch : ByBatchSizeTrigger
batch = record {
  base = init f (bytes "batch");
  count = pos 2;
  buffer = [];
  session_status_cache = [];
}

feed-batches_example :
    let r =
      feed ByBatchSize.action_for_new_object batch
        (object_of left ∷ object_of right ∷ object_of left ∷ []) in
    (sent r.1 ++ r.0.buffer
      ≡ map session_key (object_of left ∷ object_of right ∷ object_of left ∷ []))
    × All (IsBatch f 2) r.1
    × IsFilling f 2 r.0
feed-batches_example =
    feed-batches f 2 batch (object_of left ∷ object_of right ∷ object_of left ∷ [])
      (refl, refl, omega arith)

abbrev window : ByTimeTrigger
window = record {
  base = init f (bytes "window");
  time_window = 5;
  buffer = [];
  last_trigger_stamp = 0;
}

abbrev timed : List (ℕ × BucketKey)
timed = (3, object_of left) ∷ (6_000_000, object_of right) ∷ []

feed-conserves_example :
    let r = feed Buffer.arrive window timed in
    (sent r.1 ++ r.0.buffer ≡ map Buffer.object timed)
    × All (Buffer.Calls f) r.1
    × (r.0.base.target_function ≡ f)
feed-conserves_example = feed-conserves window timed

action_for_new_object-window_example :
    let r = ByTime.action_for_new_object 6_000_000 window (object_of right) in
    (6_000_000 < 0 + 5 * 1_000_000
      → (r.1 ≡ [])
        × (r.0.buffer ≡ session_key (object_of right) ∷ [])
        × (r.0.last_trigger_stamp ≡ 0))
    × (0 + 5 * 1_000_000 ≤ 6_000_000
        → (sent r.1 ≡ session_key (object_of right) ∷ [])
          × (r.0.buffer ≡ [])
          × (r.0.last_trigger_stamp ≡ 6_000_000))
action_for_new_object-window_example =
    action_for_new_object-window 6_000_000 window (object_of right) (omega arith)

abbrev pair : BySetTrigger
pair = record {
  base = init f (bytes "pair");
  key_set = left ∷ right ∷ [];
  session_prepared_keys_map = [];
  func_key_map = (bytes "source", left) ∷ [];
  session_status_cache = [];
}

pair-IsReady : Fires.IsReady pair
unfolding contains lookup str_eqb
pair-IsReady = record {
  keys = (refl, (refl, tt));
  distinct = λ s. tt;
  within = λ s a h. cc;
  incomplete = λ s k h. omega arith;
}

action_for_new_object-fires_example :
    let r = BySet.action_for_new_object pair (object_of left) in
    (Fires.Completes pair (object_of left)
      → (r.1 ≡ full_action pair s ∷ [])
        × ((x : Str)
            → BySet.prepared_keys r.0 x ≡ (if s == x then [] else BySet.prepared_keys pair x)))
    × (¬ Fires.Completes pair (object_of left)
        → (r.1 ≡ [])
          × ((x : Str)
              → BySet.prepared_keys r.0 x ≡ (
                  if s == x
                  then add left (BySet.prepared_keys pair s)
                  else BySet.prepared_keys pair x)))
unfolding contains str_eqb
action_for_new_object-fires_example =
    action_for_new_object-fires pair (object_of left) pair-IsReady refl

action_for_new_object-IsReady_example :
    Fires.IsReady (BySet.action_for_new_object pair (object_of left)).0
action_for_new_object-IsReady_example =
    action_for_new_object-IsReady pair (object_of left) pair-IsReady

-- The left object has arrived in the session, and a source function of the right one is noted.
abbrev half : BySetTrigger
half =
    BySet.notify_source_func (BySet.action_for_new_object pair (object_of left)).0 (bytes "source")
      s [] 0

abbrev control : Str
control = bytes "ctrl:0"

abbrev groups : DynamicGroupTrigger
groups = record {
  base = init f (bytes "groups");
  data_group_keys_map = [];
  control_group = control ∷ [];
  cur_control_keys = [];
}

groups-IsReady : Groups.IsReady groups
unfolding contains str_eqb
groups-IsReady = record {
  keys = (refl, tt);
  distinct = tt;
  within = λ a h. cc;
  incomplete = omega arith;
}

action_for_new_object-data_example :
    let r = DynamicGroup.action_for_new_object groups (object_of right) in
    (r.1 ≡ [])
    × Groups.IsStored r.0 right
    × ((key : Str) → Groups.IsStored groups key → Groups.IsStored r.0 key)
    × (r.0.cur_control_keys ≡ [])
unfolding group_of find_byte str_eqb
action_for_new_object-data_example =
    action_for_new_object-data groups (object_of right) (λ e. differ 5 4 refl (ap length e))
  where
    differ : (five four : ℕ) → five ≡ suc four → ¬ (five ≡ four)
    differ five four h e = omega (arith, h, e)

action_for_new_object-control_example :
    let r = DynamicGroup.action_for_new_object groups (object_of control) in
    (Groups.Completes groups (object_of control)
      → ((key : Str) → Groups.IsStored groups key → Groups.Has (s, key) (sent r.1))
        × (r.0.data_group_keys_map ≡ [])
        × (r.0.cur_control_keys ≡ []))
    × (¬ Groups.Completes groups (object_of control)
        → (r.1 ≡ []) × (r.0.data_group_keys_map ≡ []) × (r.0.cur_control_keys ≡ add control []))
unfolding contains group_of find_byte str_eqb
action_for_new_object-control_example =
    action_for_new_object-control groups (object_of control) groups-IsReady refl refl

abbrev one_of_two : RedundantTrigger
one_of_two = record { base = init f (bytes "redundant"); k = 1; n = 2; count = 0; buffer = [] }

feed-window_example :
    feed Redundant.action_for_new_object one_of_two (object_of left ∷ object_of right ∷ [])
    ≡ (one_of_two, record { function = f; session_keys = (s, left) ∷ [] } ∷ [])
feed-window_example =
    feed-window one_of_two (object_of left ∷ object_of right ∷ []) (refl, refl) (omega arith)
      (omega arith) (omega arith) refl

-- Serialized primitives that keep the message as it is; parsing another class's message gives the
-- default.
pub data Message : Type 0 where
  immediate : ImmediatePrimitive → Message
  by_name : ByNamePrimitive → Message
  by_batch_size : ByBatchSizePrimitive → Message
  by_set : BySetPrimitive → Message
  dynamic_group : DynamicGroupPrimitive → Message
  redundant : RedundantPrimitive → Message
  by_time : ByTimePrimitive → Message

abbrev pub messages : Protobuf Message
messages = record {
  immediate = record {
    serialize = immediate;
    parse = λ m. elim m [ immediate x ↦ x | _ ↦ record { function = [] } ];
    parse-serialize = λ m. refl;
  };
  by_name = record {
    serialize = by_name;
    parse = λ m. elim m [ by_name x ↦ x | _ ↦ record { function = []; key_name = [] } ];
    parse-serialize = λ m. refl;
  };
  by_batch_size = record {
    serialize = by_batch_size;
    parse = λ m. elim m [ by_batch_size x ↦ x | _ ↦ record { function = []; count = 0 } ];
    parse-serialize = λ m. refl;
  };
  by_set = record {
    serialize = by_set;
    parse = λ m. elim m [ by_set x ↦ x | _ ↦ record { function = []; key_set = [] } ];
    parse-serialize = λ m. refl;
  };
  dynamic_group = record {
    serialize = dynamic_group;
    parse = λ m. elim m [ dynamic_group x ↦ x | _ ↦ record { function = []; control_group = [] } ];
    parse-serialize = λ m. refl;
  };
  redundant = record {
    serialize = redundant;
    parse = λ m. elim m [ redundant x ↦ x | _ ↦ record { function = []; k = 0; n = 0 } ];
    parse-serialize = λ m. refl;
  };
  by_time = record {
    serialize = by_time;
    parse = λ m. elim m [ by_time x ↦ x | _ ↦ record { function = []; time_window = 0 } ];
    parse-serialize = λ m. refl;
  };
}

gen_trigger_pointer-dump_pritimive_example :
    gen_trigger_pointer messages 7
      (get_type (TriggerPointer.by_set pair))
      (get_trigger_name (TriggerPointer.by_set pair))
      (dump_pritimive messages (TriggerPointer.by_set pair))
    ≡ some (Factory.renewed 7 (TriggerPointer.by_set pair))
unfolding contains str_eqb
gen_trigger_pointer-dump_pritimive_example =
    gen_trigger_pointer-dump_pritimive messages 7 (TriggerPointer.by_set pair) (refl, (refl, tt))
