-- ===== src/Scheduler.antt =====
-- pheromone/src/scheduler/scheduler_server.cpp and pheromone/include/scheduler/comm_helper.hpp: the
-- state of the scheduler's `run` and of its `CommHelper`, and what they send. A child module
-- stands for each group of functions. A function maps the state to the new state; `none` is a
-- fault: an uncaught exception, or an access that the C++ standard leaves undefined. Where a map
-- is only ever read by `operator[]`, the default entry that this creates is not recorded.
pub mod Comm
pub mod Forward
pub mod Data
pub mod Updates
pub mod Arrival
pub mod Packing
pub mod Calls
pub mod Executors
pub mod Sends
pub mod Responses
pub mod Run
pub mod Reruns
pub mod IoThreads
pub mod Tests
use demeter.Trigger.Any.{TriggerPointer, Protobuf}
use demeter.Trigger.ByTime.{TimePoint}
use demeter.Coordinator.{FunctionCall}
use demeter.Coordinator.Notify.{KeyNotifyRequest}
use demeter.Coordinator.Status.{UpdateStatusMessage}
use demeter.Prelude.{Map, Str, nat_eq, str_eq, ℕ, Bool, List, [], ◌∷◌, ◌++◌}

-- `RecvMsgType`, each with the fields of `RecvMsg` that belong to it.
pub record ReceivedCall (D : Type 0) : Type 0 where
  pub app_name : Str
  pub resp_address : Str
  pub func_name : List Str
  pub func_args : List (List Str)
  pub is_func_arg_keys : List ℕ
  pub cpu_cores : List D
  pub memory_mb : List ℕ
  pub session_id : Str
  pub sync_data_status : Bool

pub data RecvMsg (D : Type 0) : Type 0 where
  call : ReceivedCall D → RecvMsg D
  data_resp : Str → ℕ → RecvMsg D
  kvs_get_resp : Str → ℕ → RecvMsg D
  kvs_put_resp : Str → RecvMsg D

pub record AppInfo : Type 0 where
  pub functions : List Str
  pub direct_deps : Map Str (List Str)
  pub buckets : List Str

abbrev pub new_app_info : AppInfo
new_app_info = record { functions = []; direct_deps = []; buckets = [] }

pub record InflightFuncArgs (D : Type 0) : Type 0 where
  pub func_name : Str
  pub session_id : Str
  pub key_args : List Str
  pub inflight_args : List Str
  pub arg_flag : ℕ
  pub cpu_cores : D
  pub memory_mb : ℕ

-- A trigger is shared by the bucket, the functions and the queue: each holds its index.
abbrev pub TriggerId : Type 0
TriggerId = ℕ

pub record RerunTriggerTimeout : Type 0 where
  pub trigger_ptr : TriggerId
  pub timeout : ℕ

pub record InflightIoRequest : Type 0 where
  pub executor_id : ℕ
  pub req_id : ℕ

pub record DelayFunctionCall (D : Type 0) : Type 0 where
  pub session_id : Str
  pub app_name : Str
  pub func_name : Str
  pub func_args : List Str
  pub arg_flag : ℕ
  pub cpu_cores : D
  pub memory_mb : ℕ
  pub trigger_time : TimePoint

pub record RerunCheckQueueItem : Type 0 where
  pub check_time : TimePoint
  pub session : Str
  pub trigger_ptr : TriggerId

pub record HandlerThread : Type 0 where
  pub ip : Str
  pub tid : ℕ

pub data SecondaryThreadMsg : Type 0 where
  send_req : Str → SecondaryThreadMsg
  get_kvs : Str → SecondaryThreadMsg
  put_kvs : Str → Str → SecondaryThreadMsg

pub record ClientResponse : Type 0 where
  pub app_name : Str
  pub error_no : ℕ
  pub output : Str

-- What leaves the scheduler: the channel of an executor, a socket, a KVS client of an I/O thread,
-- or an object of shared memory.
pub data Sent (D : Type 0) : Type 0 where
  to_executor : ℕ → Str → Sent D
  to_coordinator : Str → FunctionCall D → Sent D
  to_data_server : Str → Str → Sent D
  to_data_client : Str → Str → Sent D
  kvs_get : ℕ → Str → Sent D
  kvs_put : ℕ → Str → Str → Sent D
  notify : Str → KeyNotifyRequest → Sent D
  status : Str → UpdateStatusMessage → Sent D
  client_response : Str → ClientResponse → Sent D
  copy : Str → Str → Sent D

-- The fields of `CommHelper`; `sent` is everything that has left the scheduler, in order.
pub record CommHelper (D : Type 0) : Type 0 where
  pub ip : Str
  pub routing_threads : List HandlerThread
  pub app_coord_map : Map Str HandlerThread
  pub bucket_coord_map : Map Str HandlerThread
  pub rid : ℕ
  pub io_thread_count : ℕ
  pub io_thread_id : ℕ
  pub key_address_cache : Map Str Str
  pub secondary_thread_msg_queues : List (List SecondaryThreadMsg)
  pub sent : List (Sent D)

-- The two indexes of the calls that wait for objects from other nodes.
pub record Waiting (D : Type 0) : Type 0 where
  pub call_id_inflight_args_map : Map ℕ (InflightFuncArgs D)
  pub key_call_id_map : Map Str (List ℕ)

-- The global and local variables of `run`.
pub record Scheduler (D : Type 0) : Type 0 where
  pub helper : CommHelper D
  pub seed : ℕ
  pub delay_call_queue : List (DelayFunctionCall D)
  pub key_len_map : Map Str ℕ
  pub key_val_map : Map Str Str
  pub session_client_addr_map : Map Str Str
  pub rerun_check_queue : List RerunCheckQueueItem
  pub func_trigger_timeout_map : Map Str (List RerunTriggerTimeout)
  pub call_id : ℕ
  pub waiting : Waiting D
  pub key_remote_get_map : Map Str (List InflightIoRequest)
  pub key_ksv_put_map : Map Str (List InflightIoRequest)
  pub app_info_map : Map Str AppInfo
  pub func_app_map : Map Str Str
  pub bucket_app_map : Map Str Str
  pub function_executor_map : Map Str (List ℕ)
  pub executor_status_map : Map ℕ ℕ
  pub bucket_triggers_map : Map Str (List TriggerId)
  pub triggers : List TriggerPointer

-- The configuration, and the code that is not the repository's: `shm name size` is the content of
-- that many bytes of a segment of shared memory.
pub record Env (B D : Type 0) : Type 0 where
  pub pb : Protobuf B
  pub empty_primitive : B
  pub zero_cores : D
  pub string_of_double : D → Str
  pub rand_r : ℕ → ℕ × ℕ
  pub shm : Str → ℕ → Str
  pub serialize_lww : ℕ → Str → Str
  pub deserialize_lww : Str → Str
  pub executor_count : ℕ
  pub shared_executor : Bool
  pub reject_extra_req : Bool
  pub sched_delay_time : ℕ

-- Something leaves the scheduler.
abbrev pub emit : {D : Type 0} → Sent D → CommHelper D → CommHelper D
emit m h = record h { sent = h.sent ++ m ∷ [] }

abbrev pub on_helper : {D : Type 0} → CommHelper D → Scheduler D → Scheduler D
on_helper h s = record s { helper = h }
