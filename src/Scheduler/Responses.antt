-- ===== src/Scheduler/Responses.antt =====
-- pheromone/src/scheduler/scheduler_server.cpp, the second part of the loop of `run`: the messages
-- of `CommHelper`. A call waits until all of its arguments are on this node.
pub mod Waits
pub mod Index
pub mod Resolve
pub mod Arrive
pub mod Request
pub mod Requested
use demeter.Prelude.{
  ltb, if◌then◌else◌, ◌>>=◌, add, remove, is_nil, get_elem?, Map, is_some, or_default, lookup,
  insert, erase, update, Str, nat_eq, str_eq, ℕ, suc, ◌+◌, ◌%◌, Option, none, some, List, [], ◌∷◌,
  ◌++◌,
}
use demeter.Names.{delimiter}
use demeter.Trigger.ByTime.{TimePoint}
use demeter.Coordinator.{to_string}
use demeter.Scheduler.{
  DelayFunctionCall, ReceivedCall, RecvMsg, call, data_resp, kvs_get_resp, kvs_put_resp,
  InflightFuncArgs, InflightIoRequest, CommHelper, Waiting, Scheduler, Env,
}
use demeter.Scheduler.Comm.{send_data_req}
use demeter.Scheduler.Data.{kvs_key_prefix}
use demeter.Scheduler.Arrival.{sized_args}
use demeter.Scheduler.Calls.{send_to_executer, schedule_func_call}
use demeter.Scheduler.Executors.{generic_response}

-- `call_id_inflight_args_map[cid] = args` and `key_call_id_map[key].insert(cid)`
abbrev pub with_args : {D : Type 0} → ℕ → InflightFuncArgs D → Waiting D → Waiting D
with_args cid args w = record w {
  call_id_inflight_args_map = insert cid args w.call_id_inflight_args_map;
}

abbrev pub without_call : {D : Type 0} → ℕ → Waiting D → Waiting D
without_call cid w = record w { call_id_inflight_args_map = erase cid w.call_id_inflight_args_map }

abbrev pub with_key : {D : Type 0} → Str → ℕ → Waiting D → Waiting D
with_key key cid w = record w { key_call_id_map = update key [] (add cid) w.key_call_id_map }

abbrev pub without_key : {D : Type 0} → Str → Waiting D → Waiting D
without_key key w = record w { key_call_id_map = erase key w.key_call_id_map }

module _ {B D : Type 0} (env : Env B D) where
  -- The call of a set of arguments, all of which are here.
  abbrev pub inflight_call : TimePoint → Str → InflightFuncArgs D → List Str → DelayFunctionCall D
  inflight_call now app_name args func_args = record {
    session_id = args.session_id;
    app_name = app_name;
    func_name = args.func_name;
    func_args = func_args;
    arg_flag = args.arg_flag;
    cpu_cores = args.cpu_cores;
    memory_mb = args.memory_mb;
    trigger_time = now;
  }

  unfoldable pub ready_call :
      TimePoint → Str → InflightFuncArgs D → Scheduler D → Option (Scheduler D)
  unfolding sized_args schedule_func_call
  ready_call now app_name args s =
      let (func_args, lens) = sized_args s.key_len_map args.key_args in
      schedule_func_call env (inflight_call now app_name args func_args)
        (record s { key_len_map = lens })

  -- The loop over the arguments of a call: those that are not here are asked for, once each.
  unfoldable pub await_args : List Str → List Str → Scheduler D → Option (List Str × Scheduler D)
  unfolding send_data_req
  await_args [] inflight s = some (inflight, s)
  await_args (arg ∷ args) inflight s =
      let known = is_some (lookup arg s.waiting.key_call_id_map) in
      let here = await_args args inflight s in
      let asked = (do
        h ← if known then some s.helper else send_data_req arg s.helper
        await_args args (add arg inflight)
            (record s { helper = h; waiting = with_key arg s.call_id s.waiting })) in
      if is_some (lookup arg s.key_len_map) then here else asked

  -- A call whose arguments are keys runs if all are here, and waits otherwise.
  unfoldable pub call_with_keys :
      TimePoint → Str → InflightFuncArgs D → Scheduler D → Option (Scheduler D)
  unfolding ready_call await_args
  call_with_keys now app_name args s = do
    (inflight, s') ← await_args args.key_args [] s
    let args' = record args { inflight_args = inflight }
    if is_nil inflight
        then ready_call now app_name args' s'
        else some (record s' { waiting = with_args s'.call_id args' s'.waiting })

  -- One function of a call.
  unfoldable pub call_function :
      TimePoint → ReceivedCall D → Str → List Str → ℕ → D → ℕ → Scheduler D → Option (Scheduler D)
  unfolding call_with_keys schedule_func_call
  call_function now c func_name func_args arg_flag cpu_cores memory_mb s = do
    s' ←
        if ltb 0 arg_flag
        then call_with_keys now c.app_name
            (record {
              func_name = func_name;
              session_id = c.session_id;
              key_args = func_args;
              inflight_args = [];
              arg_flag = arg_flag;
              cpu_cores = cpu_cores;
              memory_mb = memory_mb;
            })
            s
        else schedule_func_call env
            (record {
              session_id = c.session_id;
              app_name = c.app_name;
              func_name = func_name;
              func_args = func_args;
              arg_flag = 0;
              cpu_cores = cpu_cores;
              memory_mb = memory_mb;
              trigger_time = now;
            })
            s
    some (record s' { call_id = (s'.call_id + 1) % 0x100000000 })

  -- The loop over the functions, by their index: the resources have defaults.
  unfoldable pub call_functions :
      TimePoint → ReceivedCall D → List Str → ℕ → Scheduler D → Option (Scheduler D)
  unfolding call_function
  call_functions now c [] i s = some s
  call_functions now c (func_name ∷ names) i s = do
    func_args ← get_elem? c.func_args i
    arg_flag ← get_elem? c.is_func_arg_keys i
    s' ←
        call_function now c func_name func_args arg_flag
          (or_default env.zero_cores (get_elem? c.cpu_cores i))
          (or_default 0 (get_elem? c.memory_mb i)) s
    call_functions now c names (suc i) s'

  unfoldable pub handle_call : TimePoint → ReceivedCall D → Scheduler D → Option (Scheduler D)
  unfolding call_functions
  handle_call now c s = call_functions now c c.func_name 0 (record s {
    session_client_addr_map = insert c.session_id c.resp_address s.session_client_addr_map;
  })

  -- The response to each of the requests that wait for one object.
  unfoldable pub answer_all : Str → List InflightIoRequest → CommHelper D → Option (CommHelper D)
  unfolding send_to_executer
  answer_all value [] h = some h
  answer_all value (request ∷ requests) h = do
    h' ← send_to_executer env request.executor_id (generic_response request.req_id value) h
    answer_all value requests h'

  -- The answers, of a map of waiting requests.
  unfoldable pub answer_waiting :
      Str
      → Str
      → Map Str (List InflightIoRequest)
      → CommHelper D
      → Option (Map Str (List InflightIoRequest) × CommHelper D)
  unfolding answer_all
  answer_waiting key value requests_map h = elim (lookup key requests_map) [
    | none ↦ some (requests_map, h)
    | some requests ↦ do h' ← answer_all value requests h; some (erase key requests_map, h')
  ]

  -- One call that waits for an object that is here now.
  unfoldable pub resolve_args :
      TimePoint → Str → ℕ → InflightFuncArgs D → Scheduler D → Option (Scheduler D)
  unfolding ready_call
  resolve_args now key cid args s =
      let args' = record args { inflight_args = remove key args.inflight_args } in
      let s' = record s { waiting = with_args cid args' s.waiting } in
      if is_nil args'.inflight_args
      then (do
        s'' ← ready_call now (or_default [] (lookup args.func_name s.func_app_map)) args' s'
        some (record s'' { waiting = without_call cid s''.waiting }))
      else some s'

  -- A call that is not in the map has fields that are not initialized: a fault.
  unfoldable pub resolve_call : TimePoint → Str → ℕ → Scheduler D → Option (Scheduler D)
  unfolding resolve_args
  resolve_call now key cid s = do
    args ← lookup cid s.waiting.call_id_inflight_args_map
    resolve_args now key cid args s

  unfoldable pub resolve_calls : TimePoint → Str → List ℕ → Scheduler D → Option (Scheduler D)
  unfolding resolve_call
  resolve_calls now key [] s = some s
  resolve_calls now key (cid ∷ cids) s = do
    s' ← resolve_call now key cid s
    resolve_calls now key cids s'

  -- The calls that `key_call_id_map` has for an object, if it has any.
  unfoldable pub resolve_listed :
      TimePoint → Str → Option (List ℕ) → Scheduler D → Option (Scheduler D)
  unfolding resolve_calls
  resolve_listed now key none s = some s
  resolve_listed now key (some cids) s = do
    s' ← resolve_calls now key cids s
    some (record s' { waiting = without_key key s'.waiting })

  -- "check if there is any waiting function"
  unfoldable pub resolve_waiting : TimePoint → Str → Scheduler D → Option (Scheduler D)
  unfolding resolve_listed
  resolve_waiting now key s = resolve_listed now key (lookup key s.waiting.key_call_id_map) s

  -- The size is appended as one character.
  unfoldable pub handle_data_resp : TimePoint → Str → ℕ → Scheduler D → Option (Scheduler D)
  unfolding answer_waiting resolve_waiting
  handle_data_resp now key size s = do
    (requests, h) ← answer_waiting key (size % 256 ∷ []) s.key_remote_get_map s.helper
    resolve_waiting now key (record s {
      helper = h;
      key_remote_get_map = requests;
      key_len_map = insert key size s.key_len_map;
    })

  unfoldable pub handle_kvs_get_resp : Str → ℕ → Scheduler D → Option (Scheduler D)
  unfolding answer_waiting
  handle_kvs_get_resp key size s = do
    let local_obj_name = kvs_key_prefix ++ delimiter ∷ key
    (requests, h) ← answer_waiting local_obj_name (to_string size) s.key_remote_get_map s.helper
    some (record s {
      helper = h;
      key_remote_get_map = requests;
      key_len_map = insert local_obj_name size s.key_len_map;
    })

  unfoldable pub handle_kvs_put_resp : Str → Scheduler D → Option (Scheduler D)
  unfolding answer_waiting
  handle_kvs_put_resp key s = do
    (requests, h) ← answer_waiting key [] s.key_ksv_put_map s.helper
    some (record s { helper = h; key_ksv_put_map = requests })

  unfoldable pub handle_resp : TimePoint → RecvMsg D → Scheduler D → Option (Scheduler D)
  unfolding handle_call handle_data_resp handle_kvs_get_resp handle_kvs_put_resp
  handle_resp now (call c) s = handle_call now c s
  handle_resp now (data_resp key size) s = handle_data_resp now key size s
  handle_resp now (kvs_get_resp key size) s = handle_kvs_get_resp key size s
  handle_resp now (kvs_put_resp key) s = handle_kvs_put_resp key s

  unfoldable pub handle_resps : TimePoint → List (RecvMsg D) → Scheduler D → Option (Scheduler D)
  unfolding handle_resp
  handle_resps now [] s = some s
  handle_resps now (resp ∷ resps) s = do s' ← handle_resp now resp s; handle_resps now resps s'
