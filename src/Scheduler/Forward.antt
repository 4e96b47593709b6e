-- ===== src/Scheduler/Forward.antt =====
-- pheromone/include/scheduler/comm_helper.hpp: what `CommHelper` sends to coordinators and clients.
pub mod Effects
use demeter.Prelude.{
  ltb, if◌then◌else◌, ◌>>=◌, lookup, ◌==◌, Str, nat_eq, str_eq, ℕ, true, false, Option, none, some,
  List, [], ◌∷◌, ◌++◌, map,
}
use demeter.Names.{BucketKey, BucketKeyAddress, get_addr_from_bucket_key, delimiter}
use demeter.Coordinator.{Argument, FunctionRequest, FunctionCall}
use demeter.Coordinator.Status.{UpdateStatusMessage}
use demeter.Scheduler.{
  HandlerThread, to_coordinator, notify, status, client_response, CommHelper, emit,
}
use demeter.Scheduler.Comm.{
  connect_address, get_data_server_addr, get_request_id, get_notifying_thread,
}

abbrev forward_func_port : ℕ
forward_func_port = 4500

abbrev update_status_handler_port : ℕ
update_status_handler_port = 7750

abbrev value_arguments : List Str → List Argument
value_arguments = map (λ arg. record { body = arg; arg_flag = 0; data_address = [] })

abbrev new_key_address : BucketKeyAddress
new_key_address = record { bucket = []; key = []; session = []; ips = []; payload = [] }

module _ {D : Type 0} where
  unfoldable pub client_response_to : Str → Str → Str → CommHelper D → CommHelper D
  client_response_to resp_address app_name output_data h =
      emit
        (client_response resp_address
          (record { app_name = app_name; error_no = 0; output = output_data }))
        h

  -- To every coordinator.
  unfoldable pub send_status :
      UpdateStatusMessage → List HandlerThread → CommHelper D → CommHelper D
  unfolding connect_address
  send_status msg [] h = h
  send_status msg (ht ∷ hts) h =
      send_status msg hts (emit (status (connect_address ht update_status_handler_port) msg) h)

  unfoldable pub update_status : ℕ → List Str → CommHelper D → CommHelper D
  unfolding send_status
  update_status avail_executors function_cache h =
      send_status
        (record { ip = h.ip; avail_executors = avail_executors; functions = function_cache })
        h.routing_threads h

  -- The arguments of a forwarded call that are keys, in steps of three of which two are read.
  unfoldable pub key_arguments : ℕ → List Str → CommHelper D → Option (List Argument × CommHelper D)
  unfolding get_data_server_addr
  key_arguments arg_flag [] h = some ([], h)
  key_arguments arg_flag (a ∷ []) h = none
  key_arguments arg_flag (a ∷ b ∷ []) h =
      let (address, h') = get_data_server_addr false h in
      some
        (record { body = a ++ delimiter ∷ b; arg_flag = arg_flag; data_address = address } ∷ [], h')
  key_arguments arg_flag (a ∷ b ∷ c ∷ args) h = do
    let (address, h') = get_data_server_addr false h
    (rest, h'') ← key_arguments arg_flag args h'
    some (
      record { body = a ++ delimiter ∷ b; arg_flag = arg_flag; data_address = address } ∷ rest,
      h'',
    )

  unfoldable pub forward_arguments :
      ℕ → List Str → CommHelper D → Option (List Argument × CommHelper D)
  unfolding key_arguments
  forward_arguments arg_flag args h =
      if ltb 0 arg_flag then key_arguments arg_flag args h else some (value_arguments args, h)

  -- The requests of a forwarded call; a function without arguments is an access past the end.
  unfoldable pub forward_requests :
      D
      → ℕ
      → List Str
      → List (List Str)
      → CommHelper D
      → Option (List (FunctionRequest D) × CommHelper D)
  unfolding forward_arguments
  forward_requests zero_cores arg_flag [] argss h = some ([], h)
  forward_requests zero_cores arg_flag (name ∷ names) [] h = none
  forward_requests zero_cores arg_flag (name ∷ names) (args ∷ argss) h = do
    (arguments, h') ← forward_arguments arg_flag args h
    (rest, h'') ← forward_requests zero_cores arg_flag names argss h'
    some (
      record { name = name; arguments = arguments; cpu_cores = zero_cores; memory_mb = 0 } ∷ rest,
      h'',
    )

  -- An application whose coordinator is unknown has the `HandlerThread` that `operator[]` makes,
  -- whose thread id is not initialized: a fault.
  unfoldable pub forward_func_call :
      D → Str → Str → List Str → List (List Str) → ℕ → Str → CommHelper D → Option (CommHelper D)
  unfolding forward_requests connect_address
  forward_func_call zero_cores resp_address app_name names argss arg_flag session_id h = do
    (requests, h') ← forward_requests zero_cores arg_flag names argss h
    ht ← lookup app_name h.app_coord_map
    let call : FunctionCall D = record {
      app_name = app_name;
      requests = requests;
      source = h.ip;
      request_id = [];
      resp_address = resp_address;
      session_id = session_id;
      sync_data_status = true;
    }
    some (emit (to_coordinator (connect_address ht forward_func_port) call) h')

  unfoldable pub notify_put : BucketKey → List Str → Str → Str → CommHelper D → CommHelper D
  unfolding get_notifying_thread get_request_id get_data_server_addr
  notify_put bucket_key active_triggers resp_address payload h =
      let notif_thread = get_notifying_thread bucket_key.bucket h in
      if notif_thread == []
      then h
      else (let (req_id, h1) = get_request_id h in
          let (server, h2) = get_data_server_addr true h1 in
          let addr = get_addr_from_bucket_key bucket_key new_key_address in
          emit
            (notify notif_thread (record {
              response_address = resp_address;
              addresses = record addr { ips = server ∷ []; payload = payload } ∷ [];
              active_trigger_names = active_triggers;
              request_id = req_id;
            }))
            h2)
