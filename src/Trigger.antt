-- ===== src/Trigger.antt =====
-- pheromone/common/include/trigger.hpp: what the trigger classes share. Each class is a child
-- module with its state and its virtual functions; `Any` holds the dispatch and the factory.
pub mod Tests
pub mod Feed
pub mod Immediate
pub mod ByName
pub mod ByBatchSize
pub mod BySet
pub mod DynamicGroup
pub mod Redundant
pub mod ByTime
pub mod Any
use demeter.Prelude.{Map, lookup, Str, nat_eq, str_eq, ℕ, none, some, List, [], ◌∷◌}
use demeter.Names.{BucketKey}

pub record TriggerAction : Type 0 where
  pub function : Str
  -- The session, then the key.
  pub session_keys : List (Str × Str)

pub record TriggerFunctionMetadata : Type 0 where
  pub func_name : Str
  pub func_args : List Str
  pub arg_flag : ℕ

pub record RerunMetadata : Type 0 where
  pub source_func : Str
  pub source_key : Str
  pub timeout : ℕ

-- The fields of the base class; the type is the class itself.
pub record Trigger : Type 0 where
  pub target_function : Str
  pub trigger_name : Str
  pub trigger_option : ℕ

-- `session_status_cache_`
abbrev pub StatusCache : Type 0
StatusCache = Map Str TriggerFunctionMetadata

abbrev pub init : Str → Str → Trigger
init function_name trigger_name = record {
  target_function = function_name;
  trigger_name = trigger_name;
  trigger_option = 0;
}

-- The metadata of the one function that waits under a key of the cache, if there is one.
abbrev pub waiting : Str → StatusCache → List TriggerFunctionMetadata
waiting k cache = elim (lookup k cache) [ none ↦ [] | some meta ↦ meta ∷ [] ]

abbrev pub session_key : BucketKey → Str × Str
session_key b = (b.session, b.key)
