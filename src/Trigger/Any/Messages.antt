-- ===== src/Trigger/Any/Messages.antt =====
-- pheromone/common/proto/operation.proto: the messages that describe a trigger, and what is used of
-- the protobuf library.
use demeter.Prelude.{Str, nat_eq, str_eq, ℕ, ◌≡◌, List}

-- The messages of operation.proto that describe a trigger.
pub record ImmediatePrimitive : Type 0 where
  pub function : Str

pub record ByNamePrimitive : Type 0 where
  pub function : Str
  pub key_name : Str

pub record ByBatchSizePrimitive : Type 0 where
  pub function : Str
  pub count : ℕ

pub record BySetPrimitive : Type 0 where
  pub function : Str
  pub key_set : List Str

pub record DynamicGroupPrimitive : Type 0 where
  pub function : Str
  pub control_group : List Str

pub record RedundantPrimitive : Type 0 where
  pub function : Str
  pub k : ℕ
  pub n : ℕ

pub record ByTimePrimitive : Type 0 where
  pub function : Str
  pub time_window : ℕ

-- `SerializeToString` and `ParseFromString` of one message: what is written is read back.
pub record Codec (B M : Type 0) : Type 0 where
  pub serialize : M → B
  pub parse : B → M
  pub parse-serialize : (m : M) → parse (serialize m) ≡ m

pub record Protobuf (B : Type 0) : Type 0 where
  pub immediate : Codec B ImmediatePrimitive
  pub by_name : Codec B ByNamePrimitive
  pub by_batch_size : Codec B ByBatchSizePrimitive
  pub by_set : Codec B BySetPrimitive
  pub dynamic_group : Codec B DynamicGroupPrimitive
  pub redundant : Codec B RedundantPrimitive
  pub by_time : Codec B ByTimePrimitive
