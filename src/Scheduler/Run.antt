-- ===== src/Scheduler/Run.antt =====
-- pheromone/src/scheduler/scheduler_server.cpp, `run`: a round of the loop takes at most one message
-- of an executor, what `try_recv_msg` of comm_helper.hpp delivers, and the calls that wait for an
-- executor. The check for re-executions that ends a round is left out.
use demeter.Prelude.{
  ltb, if◌then◌else◌, ◌>>=◌, drop, Str, nat_eq, str_eq, ℕ, zero, suc, ◌-◌, ◌/◌, Option, none, some,
  List, [], ◌∷◌, ◌++◌,
}
use demeter.Coordinator.{FunctionCall, UpdateCoordMsg}
use demeter.Trigger.ByTime.{TimePoint}
use demeter.Scheduler.{RecvMsg, call, DelayFunctionCall, CommHelper, Scheduler, Env, on_helper}
use demeter.Scheduler.Forward.{update_status}
use demeter.Scheduler.Data.{
  KeyResponse, handle_function_call, handle_data_request, handle_data_response, get_kvs_responses,
}
use demeter.Scheduler.Updates.{handle_update}
use demeter.Scheduler.Packing.{forward_call_via_helper}
use demeter.Scheduler.Calls.{get_avail_executor_num, schedule_func_call}
use demeter.Scheduler.Executors.{handle_executor}
use demeter.Scheduler.Responses.{handle_resps}

-- What the sockets and the queues of the other I/O threads hold in a round.
pub record Poll (B D : Type 0) : Type 0 where
  pub update_status : Option (UpdateCoordMsg B)
  pub func_exec : Option (FunctionCall D)
  pub data_access_server : Option Str
  pub data_access_client : Option Str
  pub kvs_responses : List KeyResponse
  pub resp_queues : List (List (RecvMsg D))

unfoldable pub concat {ℓ} : {A : Type ℓ} → List (List A) → List A
concat [] = []
concat (xs ∷ xss) = xs ++ concat xss

module _ {B D : Type 0} (env : Env B D) where
  unfoldable pub recv_update :
      TimePoint → Option (UpdateCoordMsg B) → Scheduler D → Option (Scheduler D)
  unfolding handle_update
  recv_update now none s = some s
  recv_update now (some msg) s = handle_update env.pb env.empty_primitive now msg s

  unfoldable pub recv_call :
      Option (FunctionCall D) → CommHelper D → List (RecvMsg D) × CommHelper D
  unfolding handle_function_call
  recv_call none h = ([], h)
  recv_call (some msg) h = let (c, h') = handle_function_call msg h in (call c ∷ [], h')

  unfoldable pub recv_data_request : Option Str → Scheduler D → Option (CommHelper D)
  unfolding handle_data_request
  recv_data_request none s = some s.helper
  recv_data_request (some message) s = handle_data_request env.shm s.key_len_map message s.helper

  unfoldable pub recv_data_response :
      Option Str → CommHelper D → Option (List (RecvMsg D) × CommHelper D)
  unfolding handle_data_response
  recv_data_response none h = some ([], h)
  recv_data_response (some message) h = do
    (resp, h') ← handle_data_response message h
    some (resp ∷ [], h')

  unfoldable pub try_recv_msg :
      TimePoint → Poll B D → Scheduler D → Option (List (RecvMsg D) × Scheduler D)
  unfolding recv_update recv_call recv_data_request recv_data_response get_kvs_responses concat
  try_recv_msg now poll s = do
    s1 ← recv_update now poll.update_status s
    let (calls, h1) = recv_call poll.func_exec s1.helper
    h2 ← recv_data_request poll.data_access_server (on_helper h1 s1)
    (objects, h3) ← recv_data_response poll.data_access_client h2
    let (kvs, h4) = get_kvs_responses env.deserialize_lww 0 poll.kvs_responses h3
    some (calls ++ objects ++ kvs ++ concat poll.resp_queues, on_helper h4 s1)

  -- The front of the queue, for as many rounds as there are free executors.
  unfoldable pub run_delayed : TimePoint → ℕ → Scheduler D → Option (Scheduler D)
  unfolding schedule_func_call
  run_delayed now zero s = some s
  run_delayed now (suc n) s = elim s.delay_call_queue [
    | [] ↦ some s
    | c ∷ rest ↦ do
      s' ← schedule_func_call env (record c { trigger_time = now }) s
      run_delayed now n (record s' { delay_call_queue = drop 1 s'.delay_call_queue })
  ]

  -- The microseconds that a call has waited.
  abbrev delay_time : TimePoint → DelayFunctionCall D → ℕ
  delay_time now c = (now - c.trigger_time) / 1000

  -- The calls at the front that have waited too long, which leave the queue.
  unfoldable pub forward_delayed :
      TimePoint → List (DelayFunctionCall D) → Scheduler D → Option (Scheduler D)
  unfolding forward_call_via_helper
  forward_delayed now [] s = some (record s { delay_call_queue = [] })
  forward_delayed now (c ∷ rest) s =
      let rejected = forward_delayed now rest s in
      let forwarded = (do
        s' ←
            forward_call_via_helper env c.session_id c.app_name (c.func_name ∷ [])
              (c.func_args ∷ []) c.arg_flag s
        forward_delayed now rest s') in
      if ltb env.sched_delay_time (delay_time now c)
      then (if env.reject_extra_req then rejected else forwarded)
      else some (record s { delay_call_queue = c ∷ rest })

  -- "delay forwarding"
  unfoldable pub delay_forwarding : TimePoint → Scheduler D → Option (Scheduler D)
  unfolding run_delayed forward_delayed
  delay_forwarding now s = do
    s' ← run_delayed now (get_avail_executor_num s.executor_status_map) s
    forward_delayed now s'.delay_call_queue s'

  unfoldable pub recv_executor : TimePoint → Option Str → Scheduler D → Option (Scheduler D)
  unfolding handle_executor
  recv_executor now none s = some s
  recv_executor now (some message) s = handle_executor env now message s

  -- A round, up to the report of the status.
  unfoldable pub round : TimePoint → Option Str → Poll B D → Scheduler D → Option (Scheduler D)
  unfolding recv_executor try_recv_msg handle_resps delay_forwarding
  round now message poll s = do
    s1 ← recv_executor now message s
    (resps, s2) ← try_recv_msg now poll s1
    s3 ← handle_resps env now resps s2
    delay_forwarding now s3

  -- The report of the status, whose set of functions is never filled.
  unfoldable pub report_status : Scheduler D → Scheduler D
  unfolding get_avail_executor_num update_status
  report_status s =
      on_helper (update_status (get_avail_executor_num s.executor_status_map) [] s.helper) s
