-- ===== src/Coordinator.antt =====
-- pheromone/src/coordinator and pheromone/include/coordinator: the state of the coordinator's
-- `run`, the messages that its handlers read and send, and the address helpers. A child module
-- stands for each handler. A handler maps the state and a parsed message to the new state and the
-- messages that it sends, in order; `none` means that it does not return: an uncaught exception,
-- or a dereference that the C++ standard leaves undefined.
pub mod Buckets
pub mod Objects
pub mod Triggers
pub mod Apps
pub mod Status
pub mod Demeter
pub mod Calls
pub mod Workers
pub mod Notify
pub mod Run
pub mod Tests
pub mod Invariant
use demeter.Prelude.{
  ltb, if◌then◌else◌, ℤ, Map, Str, bytes, nat_eq, str_eq, ℕ, zero, suc, ◌+◌, ◌/◌, ◌%◌, Bool, Option,
  none, List, [], ◌∷◌, ◌++◌,
}
use demeter.Names.{BucketKeyAddress}
use demeter.Trigger.Any.{TriggerPointer, PrimitiveType}
use demeter.Trigger.ByTime.{TimePoint}

pub record NodeStatus : Type 0 where
  pub tp : TimePoint
  pub avail_executors : ℤ
  pub functions : List Str

pub record Coordinator : Type 0 where
  pub bucket_key_address_map : Map Str (Map Str (List Str))
  pub bucket_key_val_map : Map Str Str
  pub bucket_node_map : Map Str (List Str)
  pub bucket_triggers_map : Map Str (List TriggerPointer)
  pub app_buckets_map : Map Str (List Str)
  pub bucket_app_map : Map Str Str
  pub node_status_map : Map Str NodeStatus

pub data KvsError : Type 0 where
  success bucket_ne key_ne session_ne kvs_nd type_nm bucket_exist req_timeout : KvsError

-- What a worker learns from the coordinator; `hints` are for re-execution.
pub record RerunHint : Type 0 where
  pub source_function : Str
  pub source_key : Str
  pub timeout : ℕ

pub record TriggerEntity (B : Type 0) : Type 0 where
  pub bucket_name : Str
  pub trigger_name : Str
  pub trigger_option : ℕ
  pub primitive_type : PrimitiveType
  pub primitive : Option B
  pub session : Str
  pub hints : List RerunHint

pub data DependencyType : Type 0 where
  direct many_to_one k_out_of_n periodic : DependencyType
  unknown : ℕ → DependencyType

pub record DataDependency : Type 0 where
  pub type_ : DependencyType
  pub src_functions : List Str
  pub tgt_functions : List Str
  pub description : Str

pub record UpdateCoordMsg (B : Type 0) : Type 0 where
  pub ip : Str
  pub thread_id : ℕ
  pub app_name : Str
  pub functions : List Str
  pub dependencies : List DataDependency
  pub triggers : List (TriggerEntity B)
  pub msg_type : ℕ

-- A message with the fields that its sender leaves at their default.
abbrev pub empty_update : {B : Type 0} → UpdateCoordMsg B
empty_update {B} = record {
  ip = [];
  thread_id = 0;
  app_name = [];
  functions = [];
  dependencies = [];
  triggers = [];
  msg_type = 0;
}

abbrev pub empty_entity : {B : Type 0} → TriggerEntity B
empty_entity {B} = record {
  bucket_name = [];
  trigger_name = [];
  trigger_option = 0;
  primitive_type = PrimitiveType.immediate;
  primitive = none;
  session = [];
  hints = [];
}

-- `std::to_string` of a number, with one round of fuel for each digit.
unfoldable pub decimal : ℕ → ℕ → Str → Str
decimal zero n acc = acc
decimal (suc fuel) n acc =
    let rest = decimal fuel (n / 10) ((b'0' + n % 10) ∷ acc) in
    if ltb n 10 then (b'0' + n) ∷ acc else rest

unfoldable pub to_string : ℕ → Str
unfolding decimal
to_string n = decimal (suc n) n []

abbrev pub trigger_update_port : ℕ
trigger_update_port = 7700

abbrev pub func_exec_port : ℕ
func_exec_port = 4300

unfoldable pub tcp_address : Str → ℕ → Str
unfolding to_string
tcp_address ip port = bytes "tcp://" ++ ip ++ b':' ∷ to_string port

-- `get_func_exec_address`
unfoldable pub get_func_exec_address : Str → ℕ → Str
unfolding tcp_address
get_func_exec_address ip io_thread = tcp_address ip ((func_exec_port + io_thread) % 0x100000000)

-- The responses, with the fields that the handlers set.
pub record BucketOperationResponse : Type 0 where
  pub bucket_name : Str
  pub response_id : Str
  pub error : KvsError

pub record TriggerOperationResponse : Type 0 where
  pub bucket_name : Str
  pub trigger_name : Str
  pub response_id : Str
  pub error : KvsError

pub record KeyQueryResponse : Type 0 where
  pub addresses : List BucketKeyAddress
  pub error : KvsError
  pub response_id : Str

pub record FunctionCallResponse : Type 0 where
  pub app_name : Str
  pub request_id : Str
  pub error_no : ℕ

pub record Argument : Type 0 where
  pub body : Str
  pub arg_flag : ℕ
  pub data_address : Str

pub record FunctionRequest (D : Type 0) : Type 0 where
  pub name : Str
  pub arguments : List Argument
  pub cpu_cores : D
  pub memory_mb : ℕ

pub record FunctionCall (D : Type 0) : Type 0 where
  pub app_name : Str
  pub requests : List (FunctionRequest D)
  pub source : Str
  pub request_id : Str
  pub resp_address : Str
  pub session_id : Str
  pub sync_data_status : Bool

-- `send_string` of a message to an address. `B` is the type of serialized primitives and `D` the
-- type of `double`.
pub data Outgoing (B D : Type 0) : Type 0 where
  bucket_response : Str → BucketOperationResponse → Outgoing B D
  trigger_response : Str → TriggerOperationResponse → Outgoing B D
  query_response : Str → KeyQueryResponse → Outgoing B D
  update_coord : Str → UpdateCoordMsg B → Outgoing B D
  function_call : Str → FunctionCall D → Outgoing B D
  function_response : Str → FunctionCallResponse → Outgoing B D

-- A message to every node of the status map.
unfoldable pub to_nodes :
    {B D : Type 0} → Map Str NodeStatus → UpdateCoordMsg B → List (Outgoing B D)
to_nodes [] msg = []
to_nodes ((ip, status) ∷ nodes) msg =
    update_coord (tcp_address ip trigger_update_port) msg ∷ to_nodes nodes msg
