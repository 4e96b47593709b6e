-- ===== src/Coordinator/Run.antt =====
-- pheromone/src/coordinator/coordinator.cpp, `run`: the loop that receives the messages, one
-- handler for each socket.
pub mod Consistency
use demeter.Prelude.{◌>>=◌, Str, nat_eq, str_eq, ℕ, Option, some, List, [], ◌∷◌, ◌++◌}
use demeter.Trigger.Any.{Protobuf}
use demeter.Trigger.ByTime.{TimePoint}
use demeter.Coordinator.{Coordinator, FunctionCall, Outgoing}
use demeter.Coordinator.Buckets.{BucketOperationRequest, bucket_op_handler}
use demeter.Coordinator.Objects.{KeyQueryRequest, query_handler}
use demeter.Coordinator.Triggers.{TriggerOperationRequest, trigger_op_handler}
use demeter.Coordinator.Apps.{AppRegistration, app_register_handler}
use demeter.Coordinator.Status.{UpdateStatusMessage, status_handler}
use demeter.Coordinator.Demeter.{Double, DemeterSchedulerConfig}
use demeter.Coordinator.Calls.{func_call_handler}
use demeter.Coordinator.Notify.{KeyNotifyRequest, notify_handler}

-- What a socket delivers. The message of the function creation socket is received and dropped.
pub data Event (B D : Type 0) : Type 0 where
  notify : KeyNotifyRequest → Event B D
  query : KeyQueryRequest → Event B D
  bucket_op : BucketOperationRequest → Event B D
  trigger_op : TriggerOperationRequest B → Event B D
  status_update : UpdateStatusMessage → Event B D
  func_create : Event B D
  app_regist : AppRegistration → Event B D
  func_call forward_func : FunctionCall D → Event B D

-- The state when `run` enters its loop.
abbrev pub initial : Coordinator
initial = record {
  bucket_key_address_map = [];
  bucket_key_val_map = [];
  bucket_node_map = [];
  bucket_triggers_map = [];
  app_buckets_map = [];
  bucket_app_map = [];
  node_status_map = [];
}

-- What the loop reads and never writes.
pub record Env (B D : Type 0) : Type 0 where
  pub pb : Protobuf B
  pub double : Double D
  pub rand_r : ℕ → ℕ × ℕ
  pub private_ip : Str
  pub thread_id : ℕ
  pub io_thread_num : ℕ
  pub config : DemeterSchedulerConfig D

module _ {B D : Type 0} (env : Env B D) where
  -- One message: the state, the seed, and the messages that are sent.
  unfoldable pub step :
      TimePoint → Coordinator × ℕ → Event B D → Option ((Coordinator × ℕ) × List (Outgoing B D))
  unfolding status_handler
  step now (c, seed) (notify request) =
      notify_handler (env.double.of_ℕ 0) env.rand_r env.io_thread_num now seed c request
  step now (c, seed) (query request) = some ((c, seed), query_handler c request)
  step now (c, seed) (bucket_op request) =
      let (c', sent) = bucket_op_handler c request in some ((c', seed), sent)
  step now (c, seed) (trigger_op request) = do
    (c', sent) ← trigger_op_handler env.pb now env.private_ip env.thread_id c request
    some ((c', seed), sent)
  step now (c, seed) (status_update msg) = some ((status_handler now c msg, seed), [])
  step now (c, seed) func_create = some ((c, seed), [])
  step now (c, seed) (app_regist app) = do
    (c', sent) ← app_register_handler env.pb now env.private_ip env.thread_id c app
    some ((c', seed), sent)
  step now (c, seed) (func_call msg) = do
    (c', sent, seed') ←
        func_call_handler env.rand_r env.double env.config env.io_thread_num seed c msg
    some ((c', seed'), sent)
  step now (c, seed) (forward_func msg) = do
    (c', sent, seed') ←
        func_call_handler env.rand_r env.double env.config env.io_thread_num seed c msg
    some ((c', seed'), sent)

  -- The messages in the order in which the loop takes them, each with the time of its arrival.
  unfoldable pub run :
      Coordinator × ℕ
      → List (TimePoint × Event B D)
      → Option ((Coordinator × ℕ) × List (Outgoing B D))
  unfolding step
  run s [] = some (s, [])
  run s ((now, event) ∷ events) = do
    (s', sent) ← step now s event
    (s'', later) ← run s' events
    some (s'', sent ++ later)
