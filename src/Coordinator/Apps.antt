-- ===== src/Coordinator/Apps.antt =====
-- pheromone/src/coordinator/app_register_handler.cpp: an application's dependencies become buckets
-- and triggers.
pub mod Decimal
use Prim.Native.String.{String}
use demeter.Prelude.{
  ltb, leb, if◌then◌else◌, ◌>>=◌, add, of_list, ℤ, or_default, insert, update, ◌==◌, Str, bytes,
  nat_eq, str_eq, pos, negsuc, ℕ, ◌+◌, ◌-◌, ◌*◌, Bool, true, false, ◌&&◌, ◌||◌, Option, none, some,
  List, [], ◌∷◌, ◌++◌, map,
}
use demeter.Names.{split}
use demeter.Trigger.Any.{
  get_trigger_name, TriggerPointer, PrimitiveType, Protobuf, get_trigger_option, get_type,
  dump_pritimive, new_by_set, new_redundant, new_by_time, u32_of_int,
}
use demeter.Trigger.ByTime.{TimePoint}
use demeter.Coordinator.{
  Coordinator, direct, many_to_one, k_out_of_n, periodic, DataDependency, TriggerEntity,
  UpdateCoordMsg, empty_update, empty_entity, Outgoing, to_nodes,
}

pub record AppRegistration : Type 0 where
  pub app_name : Str
  pub functions : List Str
  pub dependencies : List DataDependency

-- The digits at the front of a string, as a number; `none` if there are none.
unfoldable pub read_digits : Option ℕ → Str → Option ℕ
read_digits acc [] = acc
read_digits acc (c ∷ s) =
    let rest = read_digits (some (or_default 0 acc * 10 + (c - b'0'))) s in
    if leb b'0' c && leb c b'9' then rest else acc

-- The spaces that `strtol` skips.
unfoldable pub skip_spaces : Str → Str
skip_spaces [] = []
skip_spaces (c ∷ s) =
    let rest = skip_spaces s in if c == b' ' || (leb 9 c && leb c 13) then rest else c ∷ s

abbrev signed : Bool → ℕ → Option ℤ
signed true n =
    if ltb 0x80000000 n then none else if ltb 0 n then some (negsuc (n - 1)) else some (pos 0)
signed false n = if ltb n 0x80000000 then some (pos n) else none

unfoldable pub stoi_digits : Bool → Str → Option ℤ
unfolding read_digits
stoi_digits negative s = elim (read_digits none s) [ none ↦ none | some n ↦ signed negative n ]

-- `stoi`: `none` is the exception on a string with no number or one that is no `int`.
unfoldable pub stoi_sign : Str → Option ℤ
unfolding stoi_digits
stoi_sign [] = none
stoi_sign (c ∷ s) =
    if c == b'-'
    then stoi_digits true s
    else if c == b'+'
    then stoi_digits false s
    else stoi_digits false (c ∷ s)

unfoldable pub stoi : Str → Option ℤ
unfolding skip_spaces stoi_sign
stoi s = stoi_sign (skip_spaces s)

abbrev pub bucket_of : Str → Str
bucket_of tgt_function = bytes "b_" ++ tgt_function

abbrev pub key_of : Str → Str
key_of src_function = bytes "k_" ++ src_function

-- "t_" + std::to_string(type) + "_" + tgt_function
abbrev pub trigger_name_of : String → Str → Str
trigger_name_of type_ tgt_function = bytes "t_" ++ bytes type_ ++ bytes "_" ++ tgt_function

-- `stoi(metadata[0])` and `stoi(metadata[1])`
unfoldable pub k_and_n : List Str → Option (ℕ × ℕ)
k_and_n [] = none
k_and_n (k ∷ []) = none
k_and_n (k ∷ n ∷ rest) = elim (stoi k) [
  | none ↦ none
  | some k' ↦ elim (stoi n) [ none ↦ none | some n' ↦ some (u32_of_int k', u32_of_int n') ]
]

-- The trigger that a dependency is turned into: `none` where an exception is thrown, `some none`
-- for a type that has none.
unfoldable pub dependency_trigger :
    TimePoint → DataDependency → Str → Option (Option TriggerPointer)
unfolding k_and_n
dependency_trigger now dep tgt = elim dep.type_ [
  | many_to_one ↦
      some
        (some (new_by_set tgt (trigger_name_of "1" tgt) (of_list (map key_of dep.src_functions))))
  | k_out_of_n ↦ elim (k_and_n (split dep.description b',')) [
    | none ↦ none
    | some (k, n) ↦ some (some (new_redundant tgt (trigger_name_of "2" tgt) k n))
  ]
  | periodic ↦ elim (stoi dep.description) [
    | none ↦ none
    | some w ↦ some (some (new_by_time now tgt (trigger_name_of "3" tgt) (u32_of_int w)))
  ]
  | _ ↦ some none
]

-- A dependency that is not direct: the bucket of its target, and the trigger in it.
unfoldable pub add_bucket : Coordinator → Str → Str → Option TriggerPointer → Coordinator
add_bucket c app bucket trigger = record c {
  app_buckets_map = update app [] (add bucket) c.app_buckets_map;
  bucket_app_map = insert bucket app c.bucket_app_map;
  bucket_triggers_map = elim trigger [
    | none ↦ c.bucket_triggers_map
    | some t ↦ update bucket [] (λ ts. ts ++ t ∷ []) c.bucket_triggers_map
  ];
}

module _ {B : Type 0} (pb : Protobuf B) where
  -- What the workers learn of the trigger: of a time window, the bucket alone.
  unfoldable pub dependency_entity : Str → Option TriggerPointer → TriggerEntity B
  dependency_entity bucket none = record empty_entity { bucket_name = bucket }
  dependency_entity bucket (some t) = elim (get_type t) [
    | PrimitiveType.by_time ↦ record empty_entity { bucket_name = bucket }
    | _ ↦ record empty_entity {
      bucket_name = bucket;
      trigger_name = get_trigger_name t;
      trigger_option = get_trigger_option t;
      primitive_type = get_type t;
      primitive = some (dump_pritimive pb t);
    }
  ]

  -- One round of the loop over the dependencies.
  unfoldable pub register_indirect :
      TimePoint
      → Str
      → DataDependency
      → Coordinator × UpdateCoordMsg B
      → Option (Coordinator × UpdateCoordMsg B)
  unfolding dependency_trigger dependency_entity add_bucket
  register_indirect now app dep (c, msg) = elim dep.tgt_functions [
    | [] ↦ none
    | tgt ∷ _ ↦ elim (dependency_trigger now dep tgt) [
      | none ↦ none
      | some trigger ↦ some (
        add_bucket c app (bucket_of tgt) trigger,
        record msg { triggers = msg.triggers ++ dependency_entity (bucket_of tgt) trigger ∷ [] },
      )
    ]
  ]

  unfoldable pub register_dependency :
      TimePoint
      → Str
      → DataDependency
      → Coordinator × UpdateCoordMsg B
      → Option (Coordinator × UpdateCoordMsg B)
  unfolding register_indirect
  register_dependency now app dep (c, msg) = elim dep.type_ [
    | direct ↦ some (c, record msg { dependencies = msg.dependencies ++ dep ∷ [] })
    | _ ↦ register_indirect now app dep (c, msg)
  ]

  unfoldable pub register_dependencies :
      TimePoint
      → Str
      → List DataDependency
      → Coordinator × UpdateCoordMsg B
      → Option (Coordinator × UpdateCoordMsg B)
  unfolding register_dependency
  register_dependencies now app [] s = some s
  register_dependencies now app (dep ∷ deps) s = elim (register_dependency now app dep s) [
    | none ↦ none
    | some s' ↦ register_dependencies now app deps s'
  ]

  unfoldable pub app_register_handler :
      {D : Type 0}
      → TimePoint
      → Str
      → ℕ
      → Coordinator
      → AppRegistration
      → Option (Coordinator × List (Outgoing B D))
  unfolding register_dependencies
  app_register_handler now private_ip thread_id c app =
      let msg = record empty_update {
        ip = private_ip;
        thread_id = thread_id;
        app_name = app.app_name;
        functions = app.functions;
      } in
      do
        (c', update) ← register_dependencies now app.app_name app.dependencies (c, msg)
        some (c', to_nodes c'.node_status_map update)
